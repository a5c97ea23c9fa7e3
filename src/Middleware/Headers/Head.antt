-- ===== src/Middleware/Headers/Head.antt =====
-- The length that `HeadMiddleware` announces (backend/internal/middleware/head_middleware.go).
use vocy.Prelude.{
  itoa, number_from, itoa_digits, ℕ, ◌+◌, ◌<◌, ◌≡◌, refl, sym, ◌∙◌, true, false, some, List, [],
  ◌∷◌, ◌++◌, length, length-append, append_empty, All, codes, arith, ◌==◌, Bool-cases, inl, inr,
}
use vocy.Env.Schema.{Text, same}
use vocy.Middleware.Headers.{
  Context, Write, once, copied, copy_to_head, head_writes, plain_writes, handle_head,
}

-- A write that is no copy of more than one buffer.
abbrev pub IsShort : Write → Type 0
IsShort (once b) = Unit
IsShort (copied []) = Unit
IsShort (copied (b ∷ [])) = Unit
IsShort (copied (b ∷ c ∷ bs)) = ⊥

copied_one : (size : ℕ) (b : Text) → copy_to_head size (b ∷ []) ≡ size + length b
unfolding copy_to_head
copied_one size b = elim (Bool-cases (size + length b == length b)) [
  | inl right ↦ rw right
  | inr wrong ↦ rw wrong
]

head_writes-plain_writes :
    (writes : List Write) (body : Text)
    → All IsShort writes
    → head_writes (length body) writes ≡ length (plain_writes body writes)
unfolding head_writes plain_writes
head_writes-plain_writes [] body h = refl
head_writes-plain_writes (once b ∷ ws) body (h, hs) =
    rw (sym (length-append body b)) (head_writes-plain_writes ws (body ++ b) hs)
head_writes-plain_writes (copied [] ∷ ws) body (h, hs) =
    rw (append_empty body) (head_writes-plain_writes ws body hs)
head_writes-plain_writes (copied (b ∷ []) ∷ ws) body (h, hs) =
    rw (copied_one (length body) b, append_empty b, sym (length-append body b))
      (head_writes-plain_writes ws (body ++ b) hs)
head_writes-plain_writes (copied (b ∷ c ∷ bs) ∷ ws) body (h, hs) = absurd h

length_name : same (codes "Content-Length") (codes "Content-Length") ≡ true
unfolding same
length_name = refl

-- The answer to a HEAD request has no body of its own, and its `Content-Length` is the length of
-- the body that the same writes make in answer to a request that is none, if none of them copies more
-- than one buffer.
pub handle_head-length :
    (next : Context → Context × List Write) (c other after after_other : Context)
    (writes : List Write)
    → c.is_head_request ≡ true
    → other.is_head_request ≡ false
    → next c ≡ (after, writes)
    → next other ≡ (after_other, writes)
    → after_other.body ≡ []
    → All IsShort writes
    → ((handle_head next c).body ≡ after.body)
      × ((t : Text) × ((handle_head next c).headers (codes "Content-Length") ≡ some t)
          × (number_from 0 t ≡ length (handle_head next other).body))
unfolding handle_head
handle_head-length next c other after after_other writes head plain answer answer_other empty
      short =
    let total = head_writes 0 writes in
    (
      rw (answer, head),
      (
        itoa total,
        rw (answer, head, length_name),
        rw (answer_other, plain, empty)
            ((itoa_digits total).1 ∙ head_writes-plain_writes writes [] short),
      ),
    )

two_copied :
    (b c : Text) (bs : List Text)
    → 0 < length b
    → head_writes 0 (copied (b ∷ c ∷ bs) ∷ []) ≡ length b + length c
unfolding head_writes copy_to_head
two_copied b c bs filled =
    let first : (0 + length b == length b) ≡ true = ground arith in
    let second : (0 + length b + length c == length c) ≡ false = ground (arith, filled) in
    rw (copy_to_head, first, second) (omega arith)

-- The answer to a HEAD request for a file of two buffers or more announces the length of the first two
-- alone, whatever follows them: the count that `headWriter` returns for the second is that of both, and
-- `io.Copy` stops there. This supposes that the first buffer is not empty.
pub handle_head_two_buffers :
    (next : Context → Context × List Write) (c after : Context) (first second : Text)
    (more : List Text)
    → c.is_head_request ≡ true
    → next c ≡ (after, copied (first ∷ second ∷ more) ∷ [])
    → 0 < length first
    → (t : Text) × ((handle_head next c).headers (codes "Content-Length") ≡ some t)
      × (number_from 0 t ≡ length first + length second)
unfolding handle_head
handle_head_two_buffers next c after first second more head answer filled =
    let total = head_writes 0 (copied (first ∷ second ∷ more) ∷ []) in
    (
      itoa total,
      rw (answer, head, length_name),
      (itoa_digits total).1 ∙ two_copied first second more filled,
    )
