-- ===== src/Middleware/Tests.antt =====
-- Tests and witnesses on the middlewares (backend/internal/middleware).
use vocy.Prelude.{
  number_from, ◌+◌, arith, some, ℕ, suc, zero, ◌≡◌, refl, Bool, true, false, none, some, List, [],
  ◌∷◌, codes, arith,
}
use vocy.Env.Schema.{Text, ℤ, pos, EnvConfigSchema, default_config}
use vocy.Middleware.RateLimit.{
  Rate, no_clients, next, too_many_requests, Event, request, clean_up, is_exempt, run,
}
use vocy.Middleware.RateLimit.Isolation.{
  StaysRecent, verdicts_of, times_of, decide, run-verdicts_of,
}
use vocy.Middleware.ErrorHandler.{FieldError, GinError, Response, step, stops, handle_errors}
use vocy.Middleware.ErrorHandler.Answers.{handle_errors_first_known, handle_errors_answers}
use vocy.Middleware.Headers.{Context, Write, copied, handle_head}
use vocy.Middleware.Headers.Head.{handle_head_two_buffers}

-- A limiter that lets a number of requests pass in all.
abbrev spend : ℕ → ℕ → Bool × ℕ
spend now zero = (false, zero)
spend now (suc left) = (true, left)

abbrev budget : Rate ℕ ℕ
budget = record { new_limiter = λ limit burst. limit; allow = spend }

abbrev alice : Text
alice = codes "10.0.0.1"

abbrev bob : Text
bob = codes "10.0.0.2"

abbrev traffic : List Event
traffic =
    request alice 10
    ∷ request bob 20
    ∷ clean_up 30
    ∷ request alice 40
    ∷ request bob 50
    ∷ request alice 60
    ∷ []

limited : is_exempt default_config alice ≡ false
unfolding is_exempt vocy.Env.Schema.same
limited = refl

run-traffic :
    run budget default_config 2 (pos 5) traffic no_clients
    ≡ (alice, next) ∷ (bob, next) ∷ (alice, next) ∷ (bob, next) ∷ (alice, too_many_requests) ∷ []
unfolding run vocy.Env.Schema.same
run-traffic = refl

alice_recent : StaysRecent alice none traffic
unfolding vocy.Env.Schema.same
alice_recent = (omega arith, tt)

run-verdicts_of_example :
    verdicts_of alice (run budget default_config 2 (pos 5) traffic no_clients)
    ≡ decide budget (times_of alice traffic) 2
run-verdicts_of_example =
    run-verdicts_of budget default_config 2 (pos 5) alice traffic no_clients refl limited
      alice_recent

abbrev odd : GinError
odd = record {
  is_record_not_found = false;
  validation = none;
  slice_validation = none;
  app_error = none;
}

abbrev missing_name : FieldError
missing_name = record { field = codes "name"; tag = codes "required"; param = [] }

abbrev invalid : GinError
invalid = record odd { validation = some (missing_name ∷ []) }

abbrev name_answer : Response
name_answer = record { status = 400; error = codes "Name is required" }

step-invalid : step invalid ≡ stops name_answer
unfolding step vocy.Utils.CaseStyle.to_upper vocy.Env.Schema.same
step-invalid = refl

handle_errors_first_known_example :
    handle_errors (odd ∷ invalid ∷ odd ∷ [])
    ≡ (record { status = 500; error = codes "Something went wrong" } ∷ name_answer ∷ [], true)
handle_errors_first_known_example =
    handle_errors_first_known (odd ∷ []) invalid name_answer (odd ∷ []) ((refl, refl, tt, refl), tt)
      step-invalid

handle_errors_answers_example : (handle_errors (odd ∷ invalid ∷ [])).1 ≡ true
handle_errors_answers_example =
    handle_errors_answers (odd ∷ invalid ∷ []) ((tt, tt, tt), ((tt, tt, tt), tt))

abbrev asked : Context
asked = record {
  full_path = codes "/healthz";
  url_path = codes "/healthz";
  method = codes "GET";
  is_head_request = true;
  headers = λ q. none;
  status = none;
  body = [];
}

-- A file of three buffers.
abbrev copy_file : Context → Context × List Write
copy_file c =
    (record c { status = some 200 }, copied (codes "one" ∷ codes "three" ∷ codes "two" ∷ []) ∷ [])

handle_head_two_buffers_example :
    (t : Text) × ((handle_head copy_file asked).headers (codes "Content-Length") ≡ some t)
    × (number_from 0 t ≡ 3 + 5)
handle_head_two_buffers_example =
    handle_head_two_buffers copy_file asked (copy_file asked).0 (codes "one") (codes "three")
      (codes "two" ∷ []) refl refl (omega arith)
