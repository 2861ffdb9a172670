-- ===== src/Session/Ring/Tests.antt =====
-- Runs of a ring of four bytes, and the properties at it.
use terminal_x.Common.{
  ℕ, zero, suc, ◌+◌, ◌-◌, ◌%◌, ◌<◌, ◌≡◌, refl, List, [], ◌∷◌, drop, get_or, arith, some,
}
use terminal_x.Session.Ring.{Ring, write, delta}
use terminal_x.Session.Ring.Copy.{copy_at}
use terminal_x.Session.Ring.Stream.{Holds}
use terminal_x.Session.Ring.Replay.{delta_lem, write_all}

abbrev empty_ring : Ring
empty_ring = record { buf = 0 ∷ 0 ∷ 0 ∷ 0 ∷ []; start = 0; n = 0; seq = 0 }

empty_ring-Holds : Holds empty_ring []
empty_ring-Holds = record {
  room = omega arith;
  start_in = omega arith;
  n_eq = refl;
  seq_eq = refl;
  bytes = λ i l. ground arith;
}

-- Six bytes in a ring of four: the two oldest are gone.
abbrev lapped : Ring
lapped = record { buf = 5 ∷ 6 ∷ 3 ∷ 4 ∷ []; start = 2; n = 4; seq = 6 }

abbrev six : List ℕ
six = 1 ∷ 2 ∷ 3 ∷ 4 ∷ 5 ∷ 6 ∷ []

six_writes : write_all empty_ring ((1 ∷ 2 ∷ 3 ∷ []) ∷ (4 ∷ 5 ∷ 6 ∷ []) ∷ []) ≡ lapped
unfolding write_all write copy_at
six_writes = refl

lapped-Holds : Holds lapped six
lapped-Holds = record {
  room = omega arith;
  start_in = omega arith;
  n_eq = refl;
  seq_eq = refl;
  bytes = bytes_at;
}
  where
    bytes_at : (i : ℕ) → i < 4 → get_or lapped.buf ((2 + i) % 4) 0 ≡ get_or six (6 - 4 + i) 0
    bytes_at zero l = refl
    bytes_at (suc zero) l = refl
    bytes_at (suc (suc zero)) l = refl
    bytes_at (suc (suc (suc zero))) l = refl
    bytes_at (suc (suc (suc (suc i)))) l = ground arith

delta_lem_example : delta lapped 3 ≡ some (drop 3 six)
delta_lem_example = delta_lem lapped six 3 lapped-Holds (omega arith) (omega arith) (omega arith)
