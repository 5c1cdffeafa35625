-- ===== src/TestRuntime/Calls.antt =====
-- pkg/testruntime/assert.go: calls of the echo service, and what the scenarios assert of them. What a call
-- comes to is an argument: an error's text, or the backend's identity. An assertion gives whether the test
-- still passes.
use grpc_traffic_controller.Prelude.{
  ℕ, zero, suc, ◌+◌, Text, codes, List, [], ◌∷◌, Option, some, none, ◌⊎◌, inl, inr, Bool, true,
  false, ◌&&◌, not, ◌==◌, if◌then◌else◌, text_eq,
}

pub record Call : Type 0 where
  pub addr : Text
  pub backend_id : Text
  pub error : Option Text

abbrev pub make_call : (addr : Text) → Text ⊎ Text → Call
make_call addr (inl e) = record { addr = addr; backend_id = []; error = some e }
make_call addr (inr server_id) = record { addr = addr; backend_id = server_id; error = none }

-- The loop of CallN from an index on: what each call of the client comes to.
unfoldable pub call_from : (addr : Text) → (ℕ → Text ⊎ Text) → ℕ → (count : ℕ) → List Call
call_from addr does i zero = []
call_from addr does i (suc count) = make_call addr (does i) ∷ call_from addr does (suc i) count

unfoldable pub call_n : (addr : Text) → (ℕ → Text ⊎ Text) → (count : ℕ) → List Call
unfolding call_from
call_n addr does count = call_from addr does 0 count

unfoldable pub call_once : (addr : Text) → (ℕ → Text ⊎ Text) → List Call
unfolding call_n
call_once addr does = call_n addr does 1

abbrev pub has_failed : Call → Bool
has_failed c = elim c.error [ some e ↦ true | none ↦ false ]

unfoldable pub no_call_errors : List Call → Bool
no_call_errors [] = true
no_call_errors (c ∷ calls) = not (has_failed c) && no_call_errors calls

unfoldable pub must_fail : List Call → Bool
must_fail [] = true
must_fail (c ∷ calls) = has_failed c && must_fail calls

-- status.Code is a library's.
unfoldable pub must_fail_with_code : (code : Option Text → ℕ) → (want_code : ℕ) → List Call → Bool
must_fail_with_code code want_code [] = true
must_fail_with_code code want_code (c ∷ calls) =
    (code c.error == want_code) && must_fail_with_code code want_code calls

-- map[string]int
abbrev pub Counts : Type 0
Counts = List (Text × ℕ)

-- agg[key], which is 0 where the key is missing
unfoldable pub count_at : Text → Counts → ℕ
count_at key [] = 0
count_at key ((k, c) ∷ more) = if text_eq k key then c else count_at key more

-- agg[key] += 1
unfoldable pub increment : Text → Counts → Counts
increment key [] = (key, 1) ∷ []
increment key ((k, c) ∷ more) =
    let rest = increment key more in if text_eq k key then (k, suc c) ∷ more else (k, c) ∷ rest

abbrev pub error_key : Option Text → Text
error_key none = codes "ok"
error_key (some e) = e

unfoldable pub aggregate_by_error : List Call → Counts → Counts
unfolding increment
aggregate_by_error [] agg = agg
aggregate_by_error (c ∷ calls) agg = aggregate_by_error calls (increment (error_key c.error) agg)

unfoldable pub count_by_backend_id : List Call → Counts → Counts
unfolding increment
count_by_backend_id [] agg = agg
count_by_backend_id (c ∷ calls) agg =
    count_by_backend_id calls (if has_failed c then agg else increment c.backend_id agg)

unfoldable pub assert_count : (backend_id : Text) (want_count : ℕ) → Counts → Bool
unfolding count_at
assert_count backend_id want_count aggs = want_count == count_at backend_id aggs

-- the loop of AssertOneBackendGotAllCalls, and the test of gotAll at its end
unfoldable pub got_all_calls : (want_count : ℕ) → (got_all : Bool) → Counts → Bool
got_all_calls want got_all [] = got_all
got_all_calls want got_all ((k, got) ∷ more) =
    let found = got_all_calls want true more in
    let rest = got_all_calls want got_all more in
    if got == want then not got_all && found else (0 == got) && rest

unfoldable pub assert_one_backend_got_all_calls : (want_count : ℕ) → Counts → Bool
unfolding got_all_calls
assert_one_backend_got_all_calls want_count aggs = got_all_calls want_count false aggs

-- strings.Contains is a library's.
unfoldable pub count_matches : (contains : Text → Text → Bool) → (partial : Text) → Counts → ℕ
count_matches contains partial [] = 0
count_matches contains partial ((k, v) ∷ more) =
    let rest = count_matches contains partial more in if contains k partial then v + rest else rest

unfoldable pub assert_aggregated_value_partial :
    (contains : Text → Text → Bool) → (partial : Text) → (want_count : ℕ) → Counts → Bool
unfolding count_matches
assert_aggregated_value_partial contains partial want_count aggs =
    want_count == count_matches contains partial aggs
