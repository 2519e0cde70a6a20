-- ===== src/Cli/Logs/Asked.antt =====
-- What the handler of logs reads is what the command was asked for.
use proxa.Prelude.{
  ℕ, zero, suc, ◌^◌, ◌<◌, ◌≡◌, inl, inr, refl, ◌∙◌, Bool, true, false, [], ◌∷◌, Option, none, some,
  if◌then◌else◌, Bool-cases, arith, not,
}
use mathlib.Core.Option
use mathlib.Core.Option.{some_inj}
use proxa.Prelude.Int.{ℤ, pos, negsuc, ltb_ℤ, eqb_ℤ}
use proxa.Prelude.Text.{Text, codes, text_eq, text_eq_refl, atoi, show_ℤ}
use proxa.Prelude.Text.Decimal.{atoi-show_ℤ}
use proxa.Prelude.Maps.{Map, lookup, lookup-put, text-Eq}
use proxa.Server.Logs.{parse_tail, parse_replica, parse_since}
use proxa.Cli.Logs.{LogsFlags, Clock, checked_flags, since_query, put_if, logs_query}

-- `q.Get`
abbrev pub get_query : Text → Map Text Text → Text
get_query k q = Option.get_or (lookup k q) []

abbrev pub Fits : ℤ → Type 0
Fits (pos n) = n < 2 ^ 63
Fits (negsuc n) = Unit

-- A number that is printed is read back as it was.
parse_tail-read : (t : Text) (n : ℕ) → atoi t ≡ some (pos n) → parse_tail t ≡ some (pos n)
unfolding parse_tail atoi Option.bind
parse_tail-read [] n h = cc h
parse_tail-read (c ∷ t) n h = rw h (ground arith)

parse_replica-read : (t : Text) (n : ℕ) → atoi t ≡ some (pos n) → parse_replica t ≡ some (pos n)
unfolding parse_replica atoi Option.bind
parse_replica-read [] n h = cc h
parse_replica-read (c ∷ t) n h = rw h (ground arith)

get_query-put_if :
    (b : Bool) (k v : Text) (q : Map Text Text)
    → get_query k (put_if b k v q) ≡ (if b then v else get_query k q)
get_query-put_if true k v q = rw (lookup-put k k v q, text_eq_refl k) refl
get_query-put_if false k v q = refl

get_query-other :
    (b : Bool) (j k v : Text) (q : Map Text Text)
    → text_eq j k ≡ false
    → get_query k (put_if b j v q) ≡ get_query k q
get_query-other true j k v q h = rw (lookup-put j k v q, h) refl
get_query-other false j k v q h = refl

module _ (clock : Clock) where
  get_query-since_query :
      (k : Text) (since : Option ℤ) (q : Map Text Text)
      → text_eq (codes "since") k ≡ false
      → get_query k (since_query clock since q) ≡ get_query k q
  unfolding since_query
  get_query-since_query k none q h = refl
  get_query-since_query k (some t) q h =
      get_query-other true (codes "since") k (clock.format_time t) q h

  get_query-since :
      (since : Option ℤ) (q : Map Text Text)
      → get_query (codes "since") q ≡ []
      → get_query (codes "since") (since_query clock since q)
        ≡ Option.get_or (Option.map clock.format_time since) []
  unfolding since_query
  get_query-since none q h = h
  get_query-since (some t) q h = get_query-put_if true (codes "since") (clock.format_time t) q

  module _ (f : LogsFlags) (since : Option ℤ) where
    query-follow :
        get_query (codes "follow") (logs_query clock f since)
        ≡ (if f.follow then codes "true" else [])
    unfolding logs_query text_eq lookup
    query-follow =
        get_query-other (not (eqb_ℤ f.replica (pos 0))) (codes "replica") (codes "follow") _ _ refl
        ∙ (get_query-since_query (codes "follow") since _ refl
            ∙ (get_query-other (not (eqb_ℤ f.tail (negsuc 0))) (codes "tail") (codes "follow") _ _
                  refl
                ∙ get_query-put_if f.follow (codes "follow") (codes "true") []))

    query-tail :
        get_query (codes "tail") (logs_query clock f since)
        ≡ (if not (eqb_ℤ f.tail (negsuc 0)) then show_ℤ f.tail else [])
    unfolding logs_query text_eq lookup
    query-tail =
        get_query-other (not (eqb_ℤ f.replica (pos 0))) (codes "replica") (codes "tail") _ _ refl
        ∙ (get_query-since_query (codes "tail") since _ refl
            ∙ (get_query-put_if (not (eqb_ℤ f.tail (negsuc 0))) (codes "tail") (show_ℤ f.tail) _
                ∙ rw
                    (get_query-other f.follow (codes "follow") (codes "tail") (codes "true") []
                      refl)
                    refl))

    query-replica :
        get_query (codes "replica") (logs_query clock f since)
        ≡ (if not (eqb_ℤ f.replica (pos 0)) then show_ℤ f.replica else [])
    unfolding logs_query text_eq lookup
    query-replica =
        get_query-put_if (not (eqb_ℤ f.replica (pos 0))) (codes "replica") (show_ℤ f.replica) _
        ∙ rw
            (
              get_query-since_query (codes "replica") since
                  (put_if (not (eqb_ℤ f.tail (negsuc 0))) (codes "tail") (show_ℤ f.tail)
                    (put_if f.follow (codes "follow") (codes "true") []))
                  refl,
              get_query-other (not (eqb_ℤ f.tail (negsuc 0))) (codes "tail") (codes "replica")
                  (show_ℤ f.tail) (put_if f.follow (codes "follow") (codes "true") []) refl,
              get_query-other f.follow (codes "follow") (codes "replica") (codes "true") [] refl,
            )
            refl

    query-since :
        get_query (codes "since") (logs_query clock f since)
        ≡ Option.get_or (Option.map clock.format_time since) []
    unfolding logs_query text_eq lookup
    query-since =
        get_query-other (not (eqb_ℤ f.replica (pos 0))) (codes "replica") (codes "since") _ _ refl
        ∙ get_query-since since _ (
            get_query-other (not (eqb_ℤ f.tail (negsuc 0))) (codes "tail") (codes "since") _ _ refl
            ∙ get_query-other f.follow (codes "follow") (codes "since") (codes "true") [] refl)

  accepted :
      (f : LogsFlags) (since : Option ℤ)
      → checked_flags clock f ≡ some since
      → (ltb_ℤ f.tail (negsuc 0) ≡ false) × (ltb_ℤ f.replica (pos 0) ≡ false)
  unfolding checked_flags
  accepted f since h = elim (Bool-cases (ltb_ℤ f.tail (negsuc 0))) [
    | inl low ↦ cc (rw low at h)
    | inr fine ↦ elim (Bool-cases (ltb_ℤ f.replica (pos 0))) [
      | inl low ↦ cc (rw (fine, low) at h)
      | inr good ↦ (fine, good)
    ]
  ]

  followed : (b : Bool) → text_eq (if b then codes "true" else []) (codes "true") ≡ b
  unfolding text_eq
  followed true = refl
  followed false = refl

  -- A number of the flags, as the handler reads it back.
  read_tail :
      (z : ℤ)
      → ltb_ℤ z (negsuc 0) ≡ false
      → Fits z
      → parse_tail (if not (eqb_ℤ z (negsuc 0)) then show_ℤ z else []) ≡ some z
  read_tail (pos n) h fits =
      let given : not (eqb_ℤ (pos n) (negsuc 0)) ≡ true = ground arith in
      rw given (parse_tail-read (show_ℤ (pos n)) n (atoi-show_ℤ n fits))
  read_tail (negsuc zero) h fits = unfold parse_tail in refl
  read_tail (negsuc (suc n)) h fits = absurd (ground (arith, h))

  read_replica :
      (z : ℤ)
      → ltb_ℤ z (pos 0) ≡ false
      → Fits z
      → parse_replica (if not (eqb_ℤ z (pos 0)) then show_ℤ z else []) ≡ some z
  read_replica (pos zero) h fits = unfold parse_replica in refl
  read_replica (pos (suc n)) h fits =
      let given : not (eqb_ℤ (pos (suc n)) (pos 0)) ≡ true = ground arith in
      rw given (parse_replica-read (show_ℤ (pos (suc n))) (suc n) (atoi-show_ℤ (suc n) fits))
  read_replica (negsuc n) h fits = absurd (ground (arith, h))

  read_since :
      (parse_time : Text → Option ℤ) (since : Option ℤ)
      → parse_time [] ≡ none
      → ((t : ℤ) → parse_time (clock.format_time t) ≡ some t)
      → parse_since parse_time (Option.get_or (Option.map clock.format_time since) []) ≡ some since
  unfolding parse_since
  read_since parse_time none empty back = refl
  read_since parse_time (some t) empty back = read_since_text (clock.format_time t) (back t)
    where
      read_since_text :
          (s : Text) → parse_time s ≡ some t → parse_since parse_time s ≡ some (some t)
      read_since_text [] h = cc (h, empty)
      read_since_text (c ∷ s) h = rw h refl

  -- The handler of logs reads from the query of an accepted command what the command was asked for: its
  -- tail, its replica, its time and whether to follow. The numbers fit an int64, and the handler's parser of
  -- times reads what the command's formatter prints, and nothing from an empty text.
  pub logs_query-read :
      (parse_time : Text → Option ℤ) (f : LogsFlags) (since : Option ℤ)
      → checked_flags clock f ≡ some since
      → Fits f.tail
      → Fits f.replica
      → parse_time [] ≡ none
      → ((t : ℤ) → parse_time (clock.format_time t) ≡ some t)
      → let q = logs_query clock f since in
        (parse_tail (get_query (codes "tail") q) ≡ some f.tail)
        × (parse_replica (get_query (codes "replica") q) ≡ some f.replica)
        × (parse_since parse_time (get_query (codes "since") q) ≡ some since)
        × (text_eq (get_query (codes "follow") q) (codes "true") ≡ f.follow)
  logs_query-read parse_time f since ok tail_fits replica_fits empty back =
      let (t, r) = accepted f since ok in
      (
        rw (query-tail f since) (read_tail f.tail t tail_fits),
        rw (query-replica f since) (read_replica f.replica r replica_fits),
        rw (query-since f since) (read_since parse_time since empty back),
        rw (query-follow f since) (followed f.follow),
      )
