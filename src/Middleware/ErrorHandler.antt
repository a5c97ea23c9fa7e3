-- ===== src/Middleware/ErrorHandler.antt =====
-- `ErrorHandlerMiddleware` (backend/internal/middleware/error_handler.go). A text is ASCII.
pub mod Answers
use vocy.Prelude.{
  ℕ, Bool, true, false, Option, none, some, List, [], ◌∷◌, ◌++◌, map, codes, if◌then◌else◌,
}
use vocy.Utils.CaseStyle.{to_upper}
use vocy.Env.Schema.{Text, same}

-- `validator.FieldError`: `Field()`, `Tag()` and `Param()`.
pub record FieldError : Type 0 where
  pub field : Text
  pub tag : Text
  pub param : Text

-- One of `c.Errors`, by what `errors.Is` and `errors.As` find in it: `gorm.ErrRecordNotFound`,
-- `validator.ValidationErrors`, `binding.SliceValidationError` (for each of its errors, the
-- validation errors in that one), and `common.AppError` with its status and message.
pub record GinError : Type 0 where
  pub is_record_not_found : Bool
  pub validation : Option (List FieldError)
  pub slice_validation : Option (List (Option (List FieldError)))
  pub app_error : Option (ℕ × Text)

unfoldable pub error_message : FieldError → Text
error_message ve =
    if same ve.tag (codes "required")
    then ve.field ++ codes " is required"
    else if same ve.tag (codes "email")
    then ve.field ++ codes " must be a valid email address"
    else if same ve.tag (codes "username")
    then ve.field
      ++ codes
          " must only contain letters, numbers, underscores, dots, hyphens, and '@' symbols and not start or end with a special character"
    else if same ve.tag (codes "url")
    then ve.field ++ codes " must be a valid URL"
    else if same ve.tag (codes "min")
    then ve.field ++ codes " must be at least " ++ ve.param ++ codes " characters long"
    else if same ve.tag (codes "max")
    then ve.field ++ codes " must be at most " ++ ve.param ++ codes " characters long"
    else ve.field ++ codes " is invalid"

-- `strings.Join(messages, ", ")`.
unfoldable pub join : List Text → Text
join [] = []
join (m ∷ []) = m
join (m ∷ n ∷ ms) = m ++ codes ", " ++ join (n ∷ ms)

unfoldable pub handle_validation_error : List FieldError → Text
unfolding error_message join
handle_validation_error errors = join (map error_message errors)

-- `c.JSON(status, gin.H{"error": message})`.
pub record Response : Type 0 where
  pub status : ℕ
  pub error : Text

-- What one error leads to: the handler answers and stops, it answers and goes on, or it panics.
pub data Step : Type 0 where
  stops : Response → Step
  goes_on : Response → Step
  panics : Step

-- `errorResponse`; `message[:1]` panics on an empty message.
unfoldable pub error_response : ℕ → Text → Step
error_response status [] = panics
error_response status (c ∷ message) =
    stops (record { status = status; error = to_upper c ∷ message })

abbrev pub something_went_wrong : Response
something_went_wrong = record { status = 500; error = codes "Something went wrong" }

-- The end of a round: `common.AppError`, or the general answer.
abbrev pub app_step : Option (ℕ × Text) → Step
app_step none = goes_on something_went_wrong
app_step (some (status, message)) = error_response status message

-- The two tests for validation errors, each before what is behind it.
abbrev pub slice_step : Option (List (Option (List FieldError))) → Step → Step
slice_step none next = next
slice_step (some []) next = panics
slice_step (some (none ∷ more)) next = next
slice_step (some (some errors ∷ more)) next = error_response 400 (handle_validation_error errors)

abbrev pub validation_step : Option (List FieldError) → Step → Step
validation_step none next = next
validation_step (some errors) next = error_response 400 (handle_validation_error errors)

-- One round of the loop.
unfoldable pub step : GinError → Step
unfolding error_response handle_validation_error
step e =
    if e.is_record_not_found
    then error_response 404 (codes "Record not found")
    else validation_step e.validation (slice_step e.slice_validation (app_step e.app_error))

abbrev pub after_step : Step → List Response × Bool → List Response × Bool
after_step (stops r) rest = (r ∷ [], true)
after_step (goes_on r) rest = (r ∷ rest.0, rest.1)
after_step panics rest = ([], false)

-- The answers that are written, and whether the handler ends without a panic.
unfoldable pub handle_errors : List GinError → List Response × Bool
unfolding step
handle_errors [] = ([], true)
handle_errors (e ∷ errors) = let rest = handle_errors errors in after_step (step e) rest
