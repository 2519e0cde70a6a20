-- ===== src/Store/Watch/Exact.antt =====
-- What a poll of the watch sends.
use mathlib.Core.Option
use mathlib.Core.List.{append-nil}
use proxa.Prelude.{
  ◌≡◌, refl, sym, ap, ◌∙◌, arith, inl, inr, List, [], ◌∷◌, ◌++◌, Option, none, some, if◌then◌else◌,
  filter, Bool-cases, filter-append,
}
use proxa.Prelude.Text.{Text, text_eq, text_eq_iff}
use proxa.Prelude.Maps.{Map, lookup, put, lookup-put, text-Eq}
use proxa.Prelude.Maps.Keys.{IsDistinct, put-IsDistinct}
use proxa.Types.{Service}
use proxa.Store.{
  Result, ok, err, Codec, Key, key-Eq, key_eq, key_eq_iff, Row, Tables, get_service, in_project,
}
use proxa.Store.Access.{key_of}
use proxa.Store.Watch.{
  ServiceEvent, created, updated, deleted, current_rows, sent, told, told_gone, detect, detect_gone,
  scan_watch,
}

module _ (project : Text) where
  -- The events about one name.
  abbrev pub about : Text → List ServiceEvent → List ServiceEvent
  about n events = filter (λ (e : ServiceEvent). text_eq e.name n) events

  -- What is to be sent of a service: `before` is when it was last written as the last poll saw it, and `now`
  -- as this one does.
  pub changes : Text → (before now : Option Text) → Result Service → List ServiceEvent
  changes n none none got = []
  changes n (some b) none got =
      record { type = deleted; project = project; name = n; service = none } ∷ []
  changes n none (some a) (ok svc) =
      record { type = created; project = project; name = n; service = some svc } ∷ []
  changes n (some b) (some a) (ok svc) =
      if text_eq b a
      then []
      else record { type = updated; project = project; name = n; service = some svc } ∷ []
  changes n before (some a) (err e) = []

  told-changes :
      (n now : Text) (known : Option Text) (got : Result Service)
      → told project n now known got ≡ changes n known (some now) got
  unfolding told sent changes
  told-changes n now none (ok svc) = refl
  told-changes n now none (err e) = refl
  told-changes n now (some b) (ok svc) = refl
  told-changes n now (some b) (err e) = ground arith

  -- When a service was last written, as the table has it.
  abbrev pub written_at : Text → Tables → Option Text
  written_at n t = Option.map (λ (r : Row). r.updated_at) (lookup (key_of project n) t.services)

  abbrev or_known : Option Row → Option Text → Option Text
  or_known none o = o
  or_known (some r) o = some r.updated_at

  lookup-current_rows :
      (n : Text) (rows : List (Key × Row)) (m : Map Text Text)
      → IsDistinct rows
      → lookup n (current_rows (filter (in_project project) rows) m)
        ≡ or_known (lookup (key_of project n) rows) (lookup n m)
  unfolding current_rows lookup key_eq
  lookup-current_rows n [] m d = refl
  lookup-current_rows n ((k, row) ∷ rest) m (new, d) =
      elim (Bool-cases (text_eq k.project project)) [
        | inl here ↦
            let later = lookup-current_rows n rest (put k.name row.updated_at m) d in
            rw here (
              later ∙ elim (Bool-cases (text_eq k.name n)) [
                | inl same ↦
                    let at : k ≡ key_of project n =
                      (key_eq_iff k (key_of project n)).0 (ground (arith, here, same)) in
                    let absent : lookup (key_of project n) rest ≡ none =
                      ap (λ j. lookup j rest) (sym at) ∙ new in
                    rw (absent, same, lookup-put k.name n row.updated_at m, same) refl
                | inr other ↦ rw (other, lookup-put k.name n row.updated_at m, other) refl
              ])
        | inr elsewhere ↦ rw elsewhere (lookup-current_rows n rest m d)
      ]

  about-told :
      (n j now : Text) (o : Option Text) (got : Result Service)
      → about n (told project j now o got) ≡ (if text_eq j n then told project j now o got else [])
  unfolding told sent
  about-told n j now none (ok svc) = refl
  about-told n j now none (err e) = ground arith
  about-told n j now (some prev) (ok svc) = ground arith
  about-told n j now (some prev) (err e) = ground arith

  -- What a name that has a row sends.
  abbrev found_in : Text → Option Text → Option Text → Result Service → List ServiceEvent
  found_in n known none got = []
  found_in n known (some now) got = told project n now known got

  about-detect :
      (n : Text) (get : Text → Result Service) (known rest : Map Text Text)
      → IsDistinct rest
      → about n (detect project get known rest)
        ≡ found_in n (lookup n known) (lookup n rest) (get n)
  unfolding detect lookup
  about-detect n get known [] d = refl
  about-detect n get known ((j, now) ∷ rest) (new, d) =
      rw
        (
          filter-append (λ (e : ServiceEvent). text_eq e.name n)
              (told project j now (lookup j known) (get j)) (detect project get known rest),
          about-told n j now (lookup j known) (get j),
          about-detect n get known rest d,
        )
        (elim (Bool-cases (text_eq j n)) [
          | inl same ↦
              let here = (text_eq_iff j n).0 same in
              let absent : lookup n rest ≡ none = ap (λ k. lookup k rest) (sym here) ∙ new in
              rw (same, absent, here) (append-nil (told project n now (lookup n known) (get n)))
          | inr other ↦ rw other refl
        ])

  about-told_gone :
      (n j : Text) (current : Option Text)
      → about n (told_gone project j current)
        ≡ (if text_eq j n then told_gone project j current else [])
  unfolding told_gone
  about-told_gone n j none = refl
  about-told_gone n j (some now) = ground arith

  abbrev gone_in : Text → (current known : Option Text) → List ServiceEvent
  gone_in n current none = []
  gone_in n current (some prev) = told_gone project n current

  about-detect_gone :
      (n : Text) (current rest : Map Text Text)
      → IsDistinct rest
      → about n (detect_gone project current rest) ≡ gone_in n (lookup n current) (lookup n rest)
  unfolding detect_gone lookup
  about-detect_gone n current [] d = refl
  about-detect_gone n current ((j, prev) ∷ rest) (new, d) =
      rw
        (
          filter-append (λ (e : ServiceEvent). text_eq e.name n)
              (told_gone project j (lookup j current)) (detect_gone project current rest),
          about-told_gone n j (lookup j current),
          about-detect_gone n current rest d,
        )
        (elim (Bool-cases (text_eq j n)) [
          | inl same ↦
              let here = (text_eq_iff j n).0 same in
              let absent : lookup n rest ≡ none = ap (λ k. lookup k rest) (sym here) ∙ new in
              rw (same, absent, here) (append-nil (told_gone project n (lookup n current)))
          | inr other ↦ rw other refl
        ])

  changes-split :
      (n : Text) (known current : Option Text) (got : Result Service)
      → found_in n known current got ++ gone_in n current known ≡ changes n known current got
  unfolding changes told_gone
  changes-split n none none got = refl
  changes-split n none (some now) got =
      append-nil (told project n now none got) ∙ told-changes n now none got
  changes-split n (some prev) none got = refl
  changes-split n (some prev) (some now) got =
      append-nil (told project n now (some prev) got) ∙ told-changes n now (some prev) got

  current_rows-IsDistinct :
      (rows : List (Key × Row)) (m : Map Text Text)
      → IsDistinct m
      → IsDistinct (current_rows rows m)
  unfolding current_rows
  current_rows-IsDistinct [] m d = d
  current_rows-IsDistinct ((k, row) ∷ rest) m d =
      current_rows-IsDistinct rest (put k.name row.updated_at m)
        (put-IsDistinct k.name row.updated_at m d)

  -- A poll sends about each name what its row in the table has become since the last poll, and nothing twice:
  -- "created" for a row that was not known, "updated" for one that was written at another time than is known,
  -- both with the stored service and only where that can be read, "deleted" where a known name has no row, and
  -- else nothing. Afterwards it knows when each row was written. The table has one row for each key, and no name
  -- was known twice.
  pub scan_watch-exact :
      (codec : Codec) (t : Tables) (known : Map Text Text) (n : Text)
      → IsDistinct t.services
      → IsDistinct known
      → (about n (scan_watch project codec t known).0
          ≡ changes n (lookup n known) (written_at n t) (get_service codec project n t))
        × (lookup n (scan_watch project codec t known).1 ≡ written_at n t)
        × IsDistinct (scan_watch project codec t known).1
  unfolding scan_watch
  scan_watch-exact codec t known n unique d =
      let current = current_rows (filter (in_project project) t.services) [] in
      let distinct = current_rows-IsDistinct (filter (in_project project) t.services) [] tt in
      let get : Text → Result Service = λ k. get_service codec project k t in
      let at : lookup n current ≡ written_at n t =
        lookup-current_rows n t.services [] unique
        ∙ stamped (lookup (key_of project n) t.services) in
      (
        filter-append (λ (e : ServiceEvent). text_eq e.name n) (detect project get known current)
              (detect_gone project current known)
            ∙ rw
                (about-detect n get known current distinct, about-detect_gone n current known d, at)
                (changes-split n (lookup n known) (written_at n t) (get n)),
        at,
        distinct,
      )
    where
      stamped :
          (o : Option Row) → or_known o (lookup n []) ≡ Option.map (λ (r : Row). r.updated_at) o
      stamped none = unfold lookup in refl
      stamped (some r) = refl
