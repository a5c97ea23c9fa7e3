-- ===== src/Lock/Tests/Examples.antt =====
-- Witnesses of the theorems on the lock.
use vocy.Prelude.{
  ℕ, leb, if◌then◌else◌, ◌+◌, eq_iff, String, ◌≡◌, ◌↔◌, ◌≢◌, ◌≤◌, refl, true, false, none, some, ok,
  err, [], ◌∷◌, arith,
}
use vocy.Gorm.{sqlite}
use vocy.Lock.Value.{Kv, with_lock}
use vocy.Lock.Sql.{insert_lock, update_lock, may_take, is_owned, is_live}
use vocy.Lock.State.{
  AppLockService, lock_unavailable, lock_lost, succeeds, fails, own_value, previous_lock,
  wait_until, Round, tick,
}
use vocy.Lock.Acquire.{acquire, finish_acquire}
use vocy.Lock.Renewal.{attempt_renewal, renew, renew_from, run_renewal}
use vocy.Lock.Holding.{Holds, no_faults, acquire-Holds}
use vocy.Lock.Retries.{RenewedIn, renew-Holds, takeover_stops_renewal}
use vocy.Lock.Loop.{Ended, run_renewal_ends}
use vocy.Lock.Exclusion.{
  World, Reach, here, next, acquires, fails_to_acquire, time_passes, with_lease,
}
use vocy.Lock.Exclusion.Reachable.{mutual_exclusion}
use vocy.Lock.Tests.Text.{text_codec, encode}

abbrev server_a : AppLockService
server_a = record { dialect = sqlite; lock_id = "a"; process_id = 1; host_id = "host" }

abbrev server_b : AppLockService
server_b = record { dialect = sqlite; lock_id = "b"; process_id = 1; host_id = "host" }

abbrev empty_table : Kv
empty_table k = none

abbrev raw_of : AppLockService → ℕ → String
raw_of s now = encode (now + 30) s.lock_id

-- The table of a lock that a service took at a time.
abbrev taken : AppLockService → ℕ → Kv
taken s now = with_lock empty_table (some (raw_of s now))

marshal_a : text_codec.marshal (own_value server_a 3) ≡ some (raw_of server_a 3)
unfolding text_codec own_value
marshal_a = refl

marshal_b : (now : ℕ) → text_codec.marshal (own_value server_b now) ≡ some (raw_of server_b now)
unfolding text_codec own_value
marshal_b now = refl

a_row : Holds text_codec (taken server_a 3) (own_value server_a 3)
a_row = record { raw = raw_of server_a 3; row = refl; encoded = marshal_a }

a_foreign : (own_value server_a 3).lock_id ≢ server_b.lock_id
unfolding own_value
a_foreign e = ground (arith, (eq_iff "a" "b").1 e)

live : 20 ≤ (own_value server_a 3).expires_at
unfolding own_value
live = omega arith

b_foreign : server_b.lock_id ≢ server_a.lock_id
b_foreign e = ground (arith, (eq_iff "b" "a").1 e)

-- Another process takes the unexpired lock by force.
forced :
    (acquire text_codec {E = String} server_b no_faults 20 true (taken server_a 3)).1 ≡ ok (some 33)
unfolding acquire finish_acquire insert_lock may_take text_codec own_value wait_until previous_lock
forced = refl

b_takes_free :
    acquire text_codec {E = String} server_b no_faults 5 false empty_table
    ≡ (with_lock empty_table (some (raw_of server_b 5)), ok none)
unfolding acquire finish_acquire insert_lock may_take text_codec own_value wait_until previous_lock
b_takes_free = refl

acquire-Holds_example :
    Holds text_codec (with_lock empty_table (some (raw_of server_b 5))) (own_value server_b 5)
acquire-Holds_example =
    acquire-Holds text_codec {E = String} server_b no_faults 5 false empty_table
      (with_lock empty_table (some (raw_of server_b 5))) none b_takes_free

own_of_a : (own_value server_a 3).lock_id ≡ server_a.lock_id
unfolding own_value
own_of_a = refl

-- The first attempt fails, the second succeeds.
abbrev flaky : ℕ → Round String
flaky k = record {
  others = λ t. t;
  now = 10 + k;
  call = if leb k 1 then fails "busy" else succeeds;
  canceled_in_wait = false;
}

flaky_renews : (renew text_codec server_a flaky (taken server_a 3)).1 ≡ none
unfolding renew renew_from attempt_renewal update_lock is_owned is_live text_codec own_value
flaky_renews = refl

renew-Holds_example :
    RenewedIn text_codec server_a 1 4 flaky (renew text_codec server_a flaky (taken server_a 3)).0
renew-Holds_example = renew-Holds text_codec server_a flaky (taken server_a 3) flaky_renews

-- As `flaky`, but the calls behind the third would be canceled.
abbrev doomed : ℕ → Round String
doomed k = if leb k 3 then flaky k else record (flaky k) { canceled_in_wait = true }

doomed_late : (k : ℕ) → k ≤ 3 → flaky k ≡ doomed k
doomed_late k h = ground arith

takeover_stops_renewal_example :
    ((renew text_codec server_a flaky (with_lock empty_table (some (raw_of server_b 5)))).0
      ≡ with_lock empty_table (some (raw_of server_b 5)))
    × ((renew text_codec server_a flaky (with_lock empty_table (some (raw_of server_b 5)))).1
        ≢ none)
takeover_stops_renewal_example =
    takeover_stops_renewal text_codec server_a server_b no_faults 5 false empty_table
      (with_lock empty_table (some (raw_of server_b 5))) none b_takes_free b_foreign flaky
      (λ k. refl)

-- Two renewals, the second of them of a lock that is gone.
abbrev lost : ℕ → Round String
lost k = record { others = λ t. empty_table; now = 20; call = succeeds; canceled_in_wait = false }

loop_ends :
    run_renewal text_codec server_a (tick flaky ∷ tick lost ∷ []) (taken server_a 3)
    ≡ (empty_table, some (some lock_lost))
unfolding run_renewal renew renew_from attempt_renewal update_lock is_owned is_live text_codec
    own_value
loop_ends = refl

run_renewal_ends_example :
    (run_renewal text_codec server_a (tick flaky ∷ tick lost ∷ []) (taken server_a 3)
      ≡ (empty_table, some (some lock_lost)))
    ↔ Ended text_codec String server_a
        (tick flaky ∷ tick lost ∷ [])
        (taken server_a 3)
        empty_table
        (some lock_lost)
run_renewal_ends_example =
    run_renewal_ends text_codec server_a (tick flaky ∷ tick lost ∷ []) (taken server_a 3)
      empty_table (some lock_lost)

-- One server takes the lock, the other fails to, and time passes.
abbrev start : World
start = record { table = empty_table; now = 5; lease = λ p. 0 }

abbrev after_b : World
after_b = record {
  table = with_lock empty_table (some (raw_of server_b 5));
  now = 5;
  lease = with_lease (λ p. 0) "b" 35;
}

a_fails :
    acquire text_codec {E = String} server_a no_faults 5 false after_b.table
    ≡ (after_b.table, err lock_unavailable)
unfolding acquire finish_acquire insert_lock may_take text_codec own_value wait_until previous_lock
a_fails = refl

run : Reach text_codec String start (record after_b { now = 25 })
run =
    next
      (next (next here (acquires server_b no_faults after_b.table none b_takes_free))
        (fails_to_acquire server_a no_faults after_b.table lock_unavailable a_fails))
      (time_passes 20)

mutual_exclusion_example : server_b.lock_id ≡ server_b.lock_id
mutual_exclusion_example =
    mutual_exclusion text_codec {E = String} start (λ p. refl) (record after_b { now = 25 }) run "b"
      "b" (omega arith) (omega arith)
