-- ===== src/Relay/Auth/Tests.antt =====
-- A lockout of two failures at the second failure.
use terminal_x.Common.{◌≡◌, refl, true, String, [], ◌∷◌, string_key}
use terminal_x.Common.Maps.{lookup}
use terminal_x.Relay.Auth.{Lockout, fail}

abbrev ip : String
ip = "10.0.0.1"

abbrev one_failed : Lockout
one_failed = record {
  after = 2;
  window = 60;
  ents = (ip, record { fails = 1; last_fail = 100; locked_until = 0 }) ∷ [];
}

locks : (fail one_failed ip 130).0 ≡ true
unfolding fail lookup
locks = refl
