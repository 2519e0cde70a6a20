-- ===== src/Server/Sse/RoundTrip.antt =====
-- A client of the event stream reads back what was written.
use proxa.Prelude.{
  ℕ, ◌≡◌, inl, inr, refl, ap, ◌∙◌, Bool, true, false, not, ◌&&◌, List, [], ◌∷◌, ◌++◌, if◌then◌else◌,
  Bool-cases, arith, is_nil, ◌==◌,
}
use mathlib.Core.List.{append_assoc}
use proxa.Prelude.Text.{Text, codes, text_eq}
use proxa.Server.Sse.{newline, split_lines, glue_first, data_fields, write_sse_event}
use proxa.Server.Sse.Reader.{
  all_lines, is_one_line, join_lines, no_cr, read_event, stream_lines, values_of,
}

split_lines-line :
    (p rest : Text)
    → is_one_line p ≡ true
    → split_lines (p ++ newline ++ rest) ≡ p ∷ split_lines rest
unfolding split_lines
split_lines-line [] rest h = refl
split_lines-line (c ∷ p) rest h = ground (arith, h, split_lines-line p rest)

all_lines-glue :
    (c : ℕ) (parts : List Text)
    → (c == b'\n') ≡ false
    → all_lines parts ≡ true
    → all_lines (glue_first parts (c ∷ [])) ≡ true
all_lines-glue c [] e h = ground arith
all_lines-glue c (p ∷ ps) e h = ground arith

all_lines-split : (s : Text) → all_lines (split_lines s) ≡ true
unfolding split_lines
all_lines-split [] = refl
all_lines-split (c ∷ s) = elim (Bool-cases (c == b'\n')) [
  | inl e ↦ rw e (all_lines-split s)
  | inr e ↦ rw e (all_lines-glue c (split_lines s) e (all_lines-split s))
]

abbrev several : List Text → Bool
several ps = not (is_nil ps)

split_lines-several : (s : Text) → several (split_lines s) ≡ true
unfolding split_lines
split_lines-several [] = refl
split_lines-several (c ∷ s) = elim (Bool-cases (c == b'\n')) [
  | inl e ↦ rw e refl
  | inr e ↦ rw e (glued (split_lines s))
]
  where
    glued : (parts : List Text) → several (glue_first parts (c ∷ [])) ≡ true
    glued [] = refl
    glued (p ∷ ps) = refl

join_lines-glue :
    (c : ℕ) (parts : List Text)
    → several parts ≡ true
    → join_lines (glue_first parts (c ∷ [])) ≡ c ∷ join_lines parts
unfolding join_lines
join_lines-glue c [] h = cc h
join_lines-glue c (p ∷ []) h = refl
join_lines-glue c (p ∷ q ∷ ps) h = refl

join_lines-empty_first :
    (parts : List Text) → several parts ≡ true → join_lines ([] ∷ parts) ≡ b'\n' ∷ join_lines parts
unfolding join_lines
join_lines-empty_first [] h = cc h
join_lines-empty_first (p ∷ ps) h = refl

join_lines-split : (s : Text) → join_lines (split_lines s) ≡ s
unfolding split_lines join_lines
join_lines-split [] = refl
join_lines-split (c ∷ s) = ground (
  arith,
  join_lines-split s,
  split_lines-several s,
  join_lines-glue c (split_lines s),
  join_lines-empty_first (split_lines s),
)

stream_lines-split_lines : (s : Text) → no_cr s ≡ true → stream_lines false s ≡ split_lines s
unfolding stream_lines split_lines
stream_lines-split_lines [] h = refl
stream_lines-split_lines (c ∷ s) h = ground (arith, h, stream_lines-split_lines s)

no_cr-append : (s t : Text) → no_cr s ≡ true → no_cr t ≡ true → no_cr (s ++ t) ≡ true
no_cr-append [] t h k = k
no_cr-append (c ∷ s) t h k = ground (arith, h, k, no_cr-append s t)

abbrev all_no_cr : List Text → Bool
all_no_cr [] = true
all_no_cr (l ∷ ls) = no_cr l && all_no_cr ls

all_no_cr-glue :
    (c : ℕ) (parts : List Text)
    → (c == b'\r') ≡ false
    → all_no_cr parts ≡ true
    → all_no_cr (glue_first parts (c ∷ [])) ≡ true
all_no_cr-glue c [] e h = ground arith
all_no_cr-glue c (p ∷ ps) e h = ground arith

all_no_cr-split : (s : Text) → no_cr s ≡ true → all_no_cr (split_lines s) ≡ true
unfolding split_lines
all_no_cr-split [] h = refl
all_no_cr-split (c ∷ s) h = ground (arith, h, all_no_cr-split s, all_no_cr-glue c (split_lines s))

no_cr-data_fields : (ls : List Text) → all_no_cr ls ≡ true → no_cr (data_fields ls) ≡ true
unfolding data_fields
no_cr-data_fields [] h = refl
no_cr-data_fields (l ∷ ls) h =
    no_cr-append (codes "data: " ++ l ++ newline) (data_fields ls)
      (no_cr-append (codes "data: " ++ l) newline (ground (arith, h)) refl)
      (no_cr-data_fields ls (ground (arith, h)))

data-fields :
    (ls : List Text)
    → all_lines ls ≡ true
    → values_of (codes "data") (split_lines (data_fields ls ++ newline)) ≡ ls
unfolding data_fields values_of text_eq
data-fields [] h = unfold split_lines in refl
data-fields (l ∷ ls) h =
    let line : Text = codes "data: " ++ l in
    rw
      (
        append_assoc (line ++ newline) (data_fields ls) newline,
        split_lines-line line (data_fields ls ++ newline) (ground (arith, h)),
        data-fields ls (ground (arith, h)),
      )
      refl

event-fields :
    (ls : List Text)
    → all_lines ls ≡ true
    → values_of (codes "event") (split_lines (data_fields ls ++ newline)) ≡ []
unfolding data_fields values_of text_eq
event-fields [] h = unfold split_lines in refl
event-fields (l ∷ ls) h =
    let line : Text = codes "data: " ++ l in
    rw
      (
        append_assoc (line ++ newline) (data_fields ls) newline,
        split_lines-line line (data_fields ls ++ newline) (ground (arith, h)),
      )
      (event-fields ls (ground (arith, h)))

-- What follows the name of an event.
abbrev body_of : Text → Text
body_of payload = data_fields (split_lines payload) ++ newline

abbrev names_of : Text → List Text
names_of e = if is_nil e then [] else e ∷ []

module _ (payload : Text) where
  split_lines-frame :
      (c : ℕ) (e : Text)
      → is_one_line (c ∷ e) ≡ true
      → split_lines (write_sse_event (c ∷ e) payload)
        ≡ (codes "event: " ++ (c ∷ e)) ∷ split_lines (body_of payload)
  unfolding write_sse_event
  split_lines-frame c e one =
      ap split_lines (
        append_assoc (codes "event: " ++ (c ∷ e) ++ newline) (data_fields (split_lines payload))
          newline)
      ∙ split_lines-line (codes "event: " ++ (c ∷ e)) (body_of payload) (ground (arith, one))

  framed :
      (e : Text)
      → is_one_line e ≡ true
      → let ls = split_lines (write_sse_event e payload) in
        (values_of (codes "event") ls ≡ names_of e)
        × (values_of (codes "data") ls ≡ split_lines payload)
  unfolding write_sse_event
  framed [] one = (
    event-fields (split_lines payload) (all_lines-split payload),
    data-fields (split_lines payload) (all_lines-split payload),
  )
  framed (c ∷ e) one = (
    ap (values_of (codes "event")) (split_lines-frame c e one)
        ∙ (unfold values_of text_eq in
            ap (λ (l : List Text). (c ∷ e) ∷ l)
              (event-fields (split_lines payload) (all_lines-split payload))),
    ap (values_of (codes "data")) (split_lines-frame c e one)
        ∙ (unfold values_of text_eq in data-fields (split_lines payload) (all_lines-split payload)),
  )

  frame-no_cr :
      (e : Text) → no_cr e ≡ true → no_cr payload ≡ true → no_cr (write_sse_event e payload) ≡ true
  unfolding write_sse_event
  frame-no_cr [] he hp =
      no_cr-append (data_fields (split_lines payload)) newline
        (no_cr-data_fields (split_lines payload) (all_no_cr-split payload hp)) refl
  frame-no_cr (c ∷ e) he hp =
      no_cr-append (codes "event: " ++ (c ∷ e) ++ newline ++ data_fields (split_lines payload))
        newline
        (no_cr-append (codes "event: " ++ (c ∷ e) ++ newline) (data_fields (split_lines payload))
          (no_cr-append (codes "event: " ++ (c ∷ e)) newline (ground (arith, he)) refl)
          (no_cr-data_fields (split_lines payload) (all_no_cr-split payload hp)))
        refl

-- A client of the event-stream format reads from the frame of an event its name, if it has one, and the data
-- that it was written with, newlines included. Neither has a carriage return, at which the format also ends a
-- line, and the name has no newline.
pub read_event-write_sse_event :
    (event payload : Text)
    → is_one_line event ≡ true
    → no_cr event ≡ true
    → no_cr payload ≡ true
    → read_event (write_sse_event event payload)
      ≡ (if is_nil event then [] else event ∷ [], payload)
unfolding read_event
read_event-write_sse_event event payload one he hp =
    let (names, values) = framed payload event one in
    rw
      (
        stream_lines-split_lines (write_sse_event event payload) (frame-no_cr payload event he hp),
        names,
        values,
        join_lines-split payload,
      )
      refl
