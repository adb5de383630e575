-- ===== src/Resolver/Flight/Unique.antt =====
-- No name gets two objects, however many goroutines create it (internal/objectresolver/resolver.go).
use paperminer.Base.{
  Bool, false, ◌≤◌, ◌≡◌, ◌≢◌, refl, sym, subst, arith, inl, inr, String, true, Bool-cases, List, [],
  ◌∷◌, length, str_eq, eq_iff,
}
use paperminer.Io.{Result}
use paperminer.Resolver.{Resolver, get_first}
use paperminer.Resolver.Flight.{
  Server, IsServer, Stage, landed, reading, looking, creating, looking_again, Flights, put,
  after_look, IsAnswer, answered, request_failed, FlightStep, starts_reading, reads, starts_looking,
  looks, creates, creates_unheard, fails_to_create, looks_again, FlightReach, grounded, flies,
}

-- Each name that is asked for has one object at most, and none while one is being created.
record IsUnique {W T : Type 0} (sv : Server W T) (asked : String → Bool) (s : Flights W)
    : Type 0 where
  single : (name : String) → asked name ≡ true → length (sv.holds name s.state) ≤ 1
  absent :
      (name : String)
      → asked name ≡ true
      → s.stage name ≡ creating
      → length (sv.holds name s.state) ≡ 0

-- The names that are asked for are spelled in one way.
abbrev pub IsSpelledOnce : (String → String → Bool) → (String → Bool) → Type 0
IsSpelledOnce same asked =
    (a b : String) → asked a ≡ true → asked b ≡ true → same a b ≡ true → a ≡ b

same-apart :
    (same : String → String → Bool) (asked : String → Bool) (a b : String)
    → IsSpelledOnce same asked
    → asked a ≡ true
    → asked b ≡ true
    → str_eq a b ≡ false
    → same a b ≡ false
same-apart same asked a b once p q apart = elim (Bool-cases (same a b)) [
  | inl alike ↦
      let e : str_eq a b ≡ true = (eq_iff a b).1 (once a b p q alike) in absurd (cc (e, apart))
  | inr other ↦ other
]

same_name : (a b : String) → str_eq a b ≡ true → a ≡ b
same_name a b h = (eq_iff a b).0 h

put-creating :
    (name other : String) (st : Stage) (f : String → Stage)
    → st ≢ creating
    → put name st f other ≡ creating
    → f other ≡ creating
put-creating name other st f not h = elim (Bool-cases (str_eq other name)) [
  | inl equal ↦ absurd (not (rw equal at h))
  | inr apart ↦ rw apart at h
]

-- A step that changes no object, and does not turn to creating.
stage-IsUnique :
    {W T : Type 0} (sv : Server W T) (asked : String → Bool) (s : Flights W) (name : String)
    (st : Stage)
    → st ≢ creating
    → IsUnique sv asked s
    → IsUnique sv asked (record s { stage = put name st s.stage })
stage-IsUnique sv asked s name st not i = record {
  single = i.single;
  absent = λ other p h. i.absent other p (put-creating name other st s.stage not h);
}

module _ {W T : Type 0} (sv : Server W T) (r : Resolver W T) (same : String → String → Bool)
    (asked : String → Bool) (once : IsSpelledOnce same asked) where
  -- A listing makes the call create only if there is no object.
  after_look-creating :
      {name : String} {w : W} {answer : Result T}
      → IsAnswer sv r name w answer
      → after_look answer ≡ creating
      → length (sv.holds name w) ≡ 0
  unfolding after_look get_first
  after_look-creating {name} {w} answered h = none_there (sv.holds name w) h
    where
      none_there : (l : List T) → after_look (get_first r name l) ≡ creating → length l ≡ 0
      none_there [] h = refl
      none_there (x ∷ []) h = absurd (cc h)
      none_there (x ∷ y ∷ l) h = absurd (cc h)
  after_look-creating (request_failed other) h = absurd (cc (rw other at h))

  looks-IsUnique :
      (s : Flights W) (name : String) (answer : Result T)
      → IsAnswer sv r name s.state answer
      → IsUnique sv asked s
      → IsUnique sv asked (record s { stage = put name (after_look answer) s.stage })
  looks-IsUnique s name answer is i = record {
    single = i.single;
    absent = λ other p h. elim (Bool-cases (str_eq other name)) [
      | inl equal ↦
          subst (λ n. length (sv.holds n s.state) ≡ 0) (sym (same_name other name equal))
            (after_look-creating is (rw equal at h))
      | inr apart ↦ i.absent other p (rw apart at h)
    ];
  }

  creates-IsUnique :
      (s : Flights W) (name : String) (st : Stage)
      → st ≢ creating
      → IsServer sv same
      → asked name ≡ true
      → s.stage name ≡ creating
      → IsUnique sv asked s
      → IsUnique sv asked (record { stage = put name st s.stage; state = sv.add name s.state })
  creates-IsUnique s name st not documented q at i = record {
    single = λ other p. elim (Bool-cases (str_eq other name)) [
      | inl equal ↦
          subst (λ n. length (sv.holds n (sv.add name s.state)) ≤ 1)
            (sym (same_name other name equal))
            (omega (arith, documented.one_more name s.state, i.absent name q at))
      | inr apart ↦
          rw
            (documented.others name other s.state (same-apart same asked other name once p q apart))
            (i.single other p)
    ];
    absent = λ other p h. elim (Bool-cases (str_eq other name)) [
      | inl equal ↦ absurd (not (rw equal at h))
      | inr apart ↦
          rw
            (documented.others name other s.state (same-apart same asked other name once p q apart))
            (i.absent other p (rw apart at h))
    ];
  }

  FlightStep-IsUnique :
      {s t : Flights W}
      → IsServer sv same
      → FlightStep sv r asked s t
      → IsUnique sv asked s
      → IsUnique sv asked t
  FlightStep-IsUnique {s} documented (starts_reading name q at) i =
      stage-IsUnique sv asked s name reading (λ e. cc) i
  FlightStep-IsUnique {s} documented (reads name q at) i =
      stage-IsUnique sv asked s name landed (λ e. cc) i
  FlightStep-IsUnique {s} documented (starts_looking name q at) i =
      stage-IsUnique sv asked s name looking (λ e. cc) i
  FlightStep-IsUnique {s} documented (looks name {answer} q at is) i =
      looks-IsUnique s name answer is i
  FlightStep-IsUnique {s} documented (creates name q at) i =
      creates-IsUnique s name looking_again (λ e. cc) documented q at i
  FlightStep-IsUnique {s} documented (creates_unheard name q at) i =
      creates-IsUnique s name landed (λ e. cc) documented q at i
  FlightStep-IsUnique {s} documented (fails_to_create name q at) i =
      stage-IsUnique sv asked s name landed (λ e. cc) i
  FlightStep-IsUnique {s} documented (looks_again name q at) i =
      stage-IsUnique sv asked s name landed (λ e. cc) i

  FlightReach-IsUnique :
      (w : W) (s : Flights W)
      → IsServer sv same
      → ((name : String) → asked name ≡ true → length (sv.holds name w) ≤ 1)
      → FlightReach sv r asked w s
      → IsUnique sv asked s
  FlightReach-IsUnique w s documented few grounded = record {
    single = few;
    absent = λ name p h. absurd (cc h);
  }
  FlightReach-IsUnique w s documented few (flies {s = q} reach st) =
      FlightStep-IsUnique documented st (FlightReach-IsUnique w q documented few reach)

  -- However many goroutines resolve names at the same time, and whichever of their requests fail: if
  -- no name that they ask for had two objects before, none ever has, on a server where creating makes
  -- one object and only the program creates. All must spell a name in the same way: singleflight
  -- tells two spellings apart that the server takes for one name.
  pub no_duplicates :
      (w : W) (s : Flights W) (name : String)
      → IsServer sv same
      → ((other : String) → asked other ≡ true → length (sv.holds other w) ≤ 1)
      → asked name ≡ true
      → FlightReach sv r asked w s
      → length (sv.holds name s.state) ≤ 1
  no_duplicates w s name documented few p reach =
      (FlightReach-IsUnique w s documented few reach).single name p
