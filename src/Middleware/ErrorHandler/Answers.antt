-- ===== src/Middleware/ErrorHandler/Answers.antt =====
-- The answers of the error handler (backend/internal/middleware/error_handler.go).
use vocy.Prelude.{
  ℕ, zero, suc, ◌≡◌, ◌≢◌, refl, Bool, true, false, Option, none, some, List, [], ◌∷◌, ◌++◌, length,
  All, arith, inl, inr, Bool-cases, codes, if◌then◌else◌,
}
use vocy.Env.Schema.{Text, same, is_empty}
use vocy.Middleware.ErrorHandler.{
  FieldError, GinError, Response, Step, stops, goes_on, panics, error_message, join,
  handle_validation_error, error_response, something_went_wrong, app_step, slice_step,
  validation_step, after_step, step, handle_errors,
}

abbrev pub FirstUnknown : Option (List (Option (List FieldError))) → Type 0
FirstUnknown none = Unit
FirstUnknown (some []) = ⊥
FirstUnknown (some (none ∷ more)) = Unit
FirstUnknown (some (some errors ∷ more)) = ⊥

-- An error that the handler has no answer of its own for.
abbrev pub IsUnknown : GinError → Type 0
IsUnknown e =
    (e.is_record_not_found ≡ false)
    × (e.validation ≡ none)
    × FirstUnknown e.slice_validation
    × (e.app_error ≡ none)

slice_step_unknown :
    (s : Option (List (Option (List FieldError)))) (next : Step)
    → FirstUnknown s
    → slice_step s next ≡ next
slice_step_unknown none next h = refl
slice_step_unknown (some []) next h = absurd h
slice_step_unknown (some (none ∷ more)) next h = refl
slice_step_unknown (some (some errors ∷ more)) next h = absurd h

step_unknown : (e : GinError) → IsUnknown e → step e ≡ goes_on something_went_wrong
unfolding step
step_unknown e (found, v, s, a) = rw (found, v, a) (slice_step_unknown e.slice_validation _ s)

abbrev repeat : ℕ → List Response
repeat zero = []
repeat (suc n) = something_went_wrong ∷ repeat n

-- What the packages promise of an error: a list of validation errors or of errors of a slice is not
-- empty, and an `AppError` has a message.
abbrev pub HasErrors : Option (List FieldError) → Type 0
HasErrors none = Unit
HasErrors (some []) = ⊥
HasErrors (some (first ∷ more)) = Unit

abbrev pub HasEntries : Option (List (Option (List FieldError))) → Type 0
HasEntries none = Unit
HasEntries (some []) = ⊥
HasEntries (some (first ∷ more)) = HasErrors first

abbrev pub HasMessage : Option (ℕ × Text) → Type 0
HasMessage none = Unit
HasMessage (some (status, message)) = is_empty message ≡ false

abbrev pub IsProper : GinError → Type 0
IsProper e = HasErrors e.validation × HasEntries e.slice_validation × HasMessage e.app_error

-- The handler writes one general answer for each error before the first that it knows, then the
-- answer to that one, and looks at no error behind it.
pub handle_errors_first_known :
    (unknown : List GinError) (e : GinError) (r : Response) (rest : List GinError)
    → All IsUnknown unknown
    → step e ≡ stops r
    → handle_errors (unknown ++ e ∷ rest) ≡ (repeat (length unknown) ++ r ∷ [], true)
unfolding handle_errors
handle_errors_first_known [] e r rest all h = rw (handle_errors, h)
handle_errors_first_known (u ∷ us) e r rest all h =
    rw (handle_errors, step_unknown u all.0, handle_errors_first_known us e r rest all.1 h)

append_filled : (s t : Text) → is_empty t ≡ false → is_empty (s ++ t) ≡ false
append_filled [] t h = h
append_filled (c ∷ s) t h = refl

filled_append : (s t : Text) → is_empty s ≡ false → is_empty (s ++ t) ≡ false
filled_append [] t h = absurd (ground (arith, h))
filled_append (c ∷ s) t h = refl

if_filled :
    (b : Bool) (s t : Text)
    → is_empty s ≡ false
    → is_empty t ≡ false
    → is_empty (if b then s else t) ≡ false
if_filled true s t hs ht = hs
if_filled false s t hs ht = ht

error_message_filled : (e : FieldError) → is_empty (error_message e) ≡ false
unfolding error_message
error_message_filled e =
    if_filled (same e.tag (codes "required")) _ _ (append_filled e.field _ refl) (
      if_filled (same e.tag (codes "email")) _ _ (append_filled e.field _ refl) (
        if_filled (same e.tag (codes "username")) _ _ (append_filled e.field _ refl) (
          if_filled (same e.tag (codes "url")) _ _ (append_filled e.field _ refl) (
            if_filled (same e.tag (codes "min")) _ _
              (append_filled _ (codes " characters long") refl)
              (if_filled (same e.tag (codes "max")) _ _
                (append_filled _ (codes " characters long") refl)
                (append_filled e.field _ refl))))))

handle_validation_error_filled :
    (e : FieldError) (es : List FieldError) → is_empty (handle_validation_error (e ∷ es)) ≡ false
unfolding handle_validation_error join
handle_validation_error_filled e [] = error_message_filled e
handle_validation_error_filled e (f ∷ es) =
    filled_append _ _ (filled_append _ _ (error_message_filled e))

-- What `step` does without a panic.
abbrev Answers : Step → Type 0
Answers s = s ≢ panics

error_response-Answers :
    (status : ℕ) (message : Text)
    → is_empty message ≡ false
    → Answers (error_response status message)
unfolding error_response
error_response-Answers status [] h = absurd (ground (arith, h))
error_response-Answers status (c ∷ message) h = λ e. ground arith

validation-Answers :
    (errors : List FieldError)
    → HasErrors (some errors)
    → Answers (error_response 400 (handle_validation_error errors))
validation-Answers [] h = absurd h
validation-Answers (e ∷ es) h =
    error_response-Answers 400 (handle_validation_error (e ∷ es))
      (handle_validation_error_filled e es)

app_step-Answers : (o : Option (ℕ × Text)) → HasMessage o → Answers (app_step o)
app_step-Answers none h = λ e. ground arith
app_step-Answers (some (status, message)) h = error_response-Answers status message h

slice_step-Answers :
    (s : Option (List (Option (List FieldError)))) (next : Step)
    → HasEntries s
    → Answers next
    → Answers (slice_step s next)
slice_step-Answers none next h answers = answers
slice_step-Answers (some []) next h answers = absurd h
slice_step-Answers (some (none ∷ more)) next h answers = answers
slice_step-Answers (some (some errors ∷ more)) next h answers = validation-Answers errors h

validation_step-Answers :
    (v : Option (List FieldError)) (next : Step)
    → HasErrors v
    → Answers next
    → Answers (validation_step v next)
validation_step-Answers none next h answers = answers
validation_step-Answers (some errors) next h answers = validation-Answers errors h

step-Answers : (e : GinError) → IsProper e → Answers (step e)
unfolding step
step-Answers e (hv, hs, ha) = elim (Bool-cases e.is_record_not_found) [
  | inl found ↦ rw found (error_response-Answers 404 (codes "Record not found") refl)
  | inr other ↦ rw other (
      validation_step-Answers e.validation _ hv
        (slice_step-Answers e.slice_validation _ hs (app_step-Answers e.app_error ha)))
]

continues :
    (s : Step) (rest : List Response × Bool)
    → Answers s
    → rest.1 ≡ true
    → (after_step s rest).1 ≡ true
continues (stops r) rest a h = refl
continues (goes_on r) rest a h = h
continues panics rest a h = absurd (a refl)

-- The handler does not panic on errors that are as the packages promise.
pub handle_errors_answers :
    (errors : List GinError) → All IsProper errors → (handle_errors errors).1 ≡ true
unfolding handle_errors
handle_errors_answers [] h = refl
handle_errors_answers (e ∷ errors) (h, hs) =
    continues (step e) (handle_errors errors) (step-Answers e h) (handle_errors_answers errors hs)
