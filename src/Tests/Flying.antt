-- ===== src/Tests/Flying.antt =====
-- Two names that are resolved at the same time, on a server that is the list of its names.
use paperminer.Base.{
  Bool, ◌||◌, eq_iff, ◌≤◌, refl, arith, String, List, [], ◌∷◌, length, str_eq, eq_refl,
  if◌then◌else◌,
}
use paperminer.Io.{ok}
use paperminer.Resolver.{Resolver, get_first}
use paperminer.Resolver.Flight.{
  Server, IsServer, Flights, Stage, landed, looking, creating, looking_again, put, after_look,
  answered, starts_looking, looks, creates, FlightReach, grounded, flies,
}
use paperminer.Resolver.Flight.Unique.{IsSpelledOnce, no_duplicates}

abbrev named : String → List String → List String
named name [] = []
named name (x ∷ xs) = if str_eq name x then (x ∷ named name xs) else named name xs

abbrev name_server : Server (List String) String
name_server = record { holds = named; add = λ name w. name ∷ w }

-- Names are spelled as they are.
abbrev as_spelled : String → String → Bool
as_spelled = str_eq

abbrev asked : String → Bool
asked name = str_eq name "a" || str_eq name "b"

spelled_once : IsSpelledOnce as_spelled asked
spelled_once a b p q same = (eq_iff a b).0 same

name_server-IsServer : IsServer name_server as_spelled
name_server-IsServer = record {
  one_more = λ name w. rw (eq_refl name) refl;
  others = λ name other w apart. rw apart refl;
}

abbrev tags : Resolver (List String) String
tags = record {
  kind = "tag";
  do_once = λ key m. m;
  p = record { kind = "tag"; create = λ name w. (ok tt, w); list_by_name = λ name w. (ok [], w) };
}

-- Both names are looked up before one of them is created.
abbrev looked_up : String → Stage
looked_up = put "a" creating (put "a" looking (put "b" creating (put "b" looking (λ n. landed))))

abbrev both : Flights (List String)
both = record {
  stage = put "a" looking_again (put "b" looking_again looked_up);
  state = "a" ∷ "b" ∷ [];
}

both-FlightReach : FlightReach name_server tags asked [] both
unfolding after_look get_first
both-FlightReach =
    let b1 = flies grounded (starts_looking "b" refl refl) in
    let b2 = flies b1 (looks "b" refl refl answered) in
    let a1 = flies b2 (starts_looking "a" refl refl) in
    let a2 = flies a1 (looks "a" refl refl answered) in
    flies (flies a2 (creates "b" refl refl)) (creates "a" refl refl)

no_duplicates_example : length (named "a" both.state) ≤ 1
no_duplicates_example =
    no_duplicates name_server tags as_spelled asked spelled_once [] both "a" name_server-IsServer
      (λ n p. omega arith) refl both-FlightReach
