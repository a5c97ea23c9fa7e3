-- ===== src/Lock/Exclusion/Reachable.antt =====
-- Every reachable state of the processes that share the lock has at most one holder
-- (backend/internal/service/app_lock_service.go).
use vocy.Prelude.{String, ◌≡◌, sym, ◌∙◌, arith}
use vocy.Lock.Value.{LockValue, Codec, Kv}
use vocy.Lock.Holding.{Holds}
use vocy.Lock.Exclusion.{World, Reach, here, next, IsHolder, Inv}
use vocy.Lock.Exclusion.Steps.{Step-Inv}

module _ (codec : Codec) where
  same_lock :
      (t : Kv) (v v' : LockValue) → Holds codec t v → Holds codec t v' → v.lock_id ≡ v'.lock_id
  same_lock t v v' h h' =
      let raws : h.raw ≡ h'.raw = cc (h.row, h'.row) in
      cc (
        raws,
        codec.lock_id_of-marshal v h.raw h.encoded,
        codec.lock_id_of-marshal v' h'.raw h'.encoded,
      )

  free-Inv : (w : World) → ((p : String) → w.lease p ≡ 0) → Inv codec w
  free-Inv w free = record {
    backed = λ p live. absurd (omega (arith, live, free p));
    ahead = λ p. omega (arith, free p);
  }

  module _ {E : Type 0} (w : World) where
    Reach-Inv : Inv codec w → (w' : World) → Reach codec E w w' → Inv codec w'
    Reach-Inv inv _ here = inv
    Reach-Inv inv w' (next {u} r step) = Step-Inv codec u w' step (Reach-Inv inv u r)

    -- From a state in which no process has a lease, whatever the table holds, any sequence of
    -- acquisitions without force, attempts to renew, releases and passages of time, whose calls of
    -- the database may fail before or after they write, leads to a state in which two unexpired
    -- leases belong to the same lock id. This supposes that the processes read one clock, in the
    -- instant in which their statement runs.
    pub mutual_exclusion :
        ((p : String) → w.lease p ≡ 0)
        → (w' : World) → Reach codec E w w'
        → (p q : String) → IsHolder w' p
        → IsHolder w' q
        → p ≡ q
    mutual_exclusion free w' r p q live live' =
        let inv = Reach-Inv (free-Inv w free) w' r in
        let b = inv.backed p live in
        let b' = inv.backed q live' in
        sym b.own ∙ same_lock w'.table b.held b'.held b.holds b'.holds ∙ b'.own
