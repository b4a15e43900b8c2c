-- ===== src/RateLimit/Tests.antt =====
-- The theorems on the rate limiter at concrete calls.
use agent_pod.Base.{ℕ, ◌≤◌, ◌≡◌, refl, List, [], ◌∷◌, arith, length}
use agent_pod.Base.Dict
use agent_pod.RateLimit.Limiter.{
  Options, Entry, Table, fresh, in_window, admit, make_room, sweep, consume,
}
use agent_pod.RateLimit.Bounds.{length-consume}
use agent_pod.RateLimit.History.{run, run-window_bound}

-- Two calls in a window of 10, blocks from 20 up to 60, and room for two keys.
abbrev options : Options
options = record { window_ms = 10; limit = 2; base_block_ms = 20; max_block_ms = 60; max_keys = 2 }

abbrev calls : List ℕ
calls = 1 ∷ 3 ∷ 4 ∷ 20 ∷ 24 ∷ 25 ∷ []

run-window_bound_example : length (in_window options 25 (run options calls fresh []).1) ≤ 2
run-window_bound_example = run-window_bound options (omega arith) (omega arith) calls (omega arith)

-- The third call is refused and starts a block that ends at 24.
third_refused : (run options (1 ∷ 3 ∷ 4 ∷ 20 ∷ 24 ∷ []) fresh []).1 ≡ 1 ∷ 3 ∷ 24 ∷ []
unfolding run admit
third_refused = refl

-- Where a block is shorter than the window, four calls get through in one window of limit two.
abbrev short_block : Options
short_block = record {
  window_ms = 60;
  limit = 2;
  base_block_ms = 30;
  max_block_ms = 900;
  max_keys = 10;
}

four_in_a_window :
    length (in_window short_block 34 (run short_block (1 ∷ 2 ∷ 3 ∷ 33 ∷ 34 ∷ []) fresh []).1) ≡ 4
unfolding run admit in_window
four_in_a_window = refl

abbrev seen : List ℕ → Entry
seen stamps = record { stamps = stamps; strikes = 0; blocked_until = 0 }

abbrev blocked : Entry
blocked = record { stamps = []; strikes = 1; blocked_until = 30 }

abbrev table : Table
table = ("a", seen (8 ∷ [])) ∷ ("b", blocked) ∷ ("c", seen (9 ∷ [])) ∷ []

length-consume_example : length (consume options 10 "d" table).0 ≤ 3
length-consume_example = length-consume options 10 "d" table (omega arith)

-- The table is one above `maxKeys` after a call that finds it full of live keys.
one_above : length (consume options 10 "d" (("a", seen (8 ∷ [])) ∷ ("b", blocked) ∷ [])).0 ≡ 3
unfolding consume make_room Dict.get Dict.set
one_above = refl

-- The key that goes is the one that runs out first, and the blocked one stays.
blocked_stays : Dict.keys (sweep options 10 table) ≡ "b" ∷ "c" ∷ []
unfolding sweep Dict.delete
blocked_stays = refl

abbrev small : Table
small = ("b", blocked) ∷ []
