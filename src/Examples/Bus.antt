-- ===== src/Examples/Bus.antt =====
-- A bus with a quick subscriber, a slow one whose queue holds one item, and a closed one.
use rebooter_droids.Base.{ℕ, true, false, none, some, List, [], ◌∷◌, ◌++◌, ◌≡◌, refl}
use rebooter_droids.Base.Table.{get, put}
use rebooter_droids.Bus.{
  Bus, contains, difference, change, offer, fan_out, publish, close, put_nowait, taken, subscribe,
  unsubscribe, consume, Call, subscribing, unsubscribing, consuming, publishing, run,
  default_queue_size, empty_bus, Action, calling, putting, shutting, ending, interleave,
}

abbrev calls : List (Call ℕ)
calls =
    subscribing "quick" default_queue_size
    ∷ subscribing "slow" 1
    ∷ subscribing "left" 1
    ∷ publishing 7
    ∷ consuming "quick"
    ∷ unsubscribing "left"
    ∷ publishing 8
    ∷ []

abbrev after_calls : Bus ℕ
after_calls = record {
  objects =
      ("quick", record { max_size = 100; queue = some 8 ∷ []; closed = false })
      ∷ ("slow", record { max_size = 1; queue = some 7 ∷ []; closed = false })
      ∷ ("left", record { max_size = 1; queue = some 7 ∷ []; closed = true })
      ∷ [];
  refs = "slow" ∷ "quick" ∷ [];
}

-- The slow subscriber loses the second event, and the reference to the closed one is pruned.
run_test : run calls empty_bus ≡ after_calls
unfolding run subscribe publish fan_out change offer put_nowait consume taken unsubscribe close
    contains difference get put
run_test = refl

-- A subscriber that is closed on a full queue gets no sentinel, also once its queue is drained.
close_test :
    get "left" (run (calls ++ consuming "left" ∷ []) empty_bus).objects
    ≡ some (record { max_size = 1; queue = []; closed = true })
unfolding run subscribe publish fan_out change offer put_nowait consume taken unsubscribe close
    contains difference get put
close_test = refl

-- A publisher tests the subscriber, which is closed before the event is put: the event comes after
-- the sentinel.
abbrev race : List (Action ℕ)
race = calling (subscribing "late" 2) ∷ shutting "late" ∷ ending "late" ∷ putting "late" 9 ∷ []

race_test :
    get "late" (interleave race empty_bus).objects
    ≡ some (record { max_size = 2; queue = none ∷ some 9 ∷ []; closed = true })
unfolding interleave subscribe change put_nowait get put
race_test = refl
