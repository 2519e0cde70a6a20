-- ===== src/Auth/Subjects/RoundTrip.antt =====
-- What is stored of a subject is what is read.
use proxa.Prelude.{
  ◌≡◌, inl, inr, refl, sym, ap, false, [], ◌∷◌, Option, none, some, is_nil, Bool-cases,
}
use mathlib.Core.Option
use mathlib.Core.Option.{some_inj}
use proxa.Prelude.Text.{Text, codes, text_eq, text_eq_iff, text_eq_refl}
use proxa.Prelude.Maps.{Map, lookup, put, lookup-put, text-Eq}
use proxa.Auth.Login.{Subject, secret_hash}
use proxa.Auth.Subjects.{
  MetadataCodec, SubjectRow, nullable_string, metadata_text, subject_row, put_subject,
  read_metadata, with_secret, subject_of, get_subject,
}

-- Of its texts the codec knows the empty object, and reads nothing from an empty one.
pub record ReadsEmpty (codec : MetadataCodec) : Type 0 where
  pub reads_empty : codec.read (codes "{}") ≡ some []
  pub refuses_nothing : codec.read [] ≡ none

put-same : (k v : Text) (m : Map Text Text) → lookup k m ≡ some v → put k v m ≡ m
unfolding lookup put
put-same k v [] h = cc h
put-same k v ((j, w) ∷ m) h = elim (Bool-cases (text_eq j k)) [
  | inl here ↦ rw here (ap (λ x. (j, x) ∷ m) (sym (some_inj.0 (rw here at h))))
  | inr later ↦ rw later (ap (λ n. (j, w) ∷ n) (put-same k v m (rw later at h)))
]

with_secret-same :
    (m : Map Text Text) (o : Option Text)
    → lookup secret_hash m ≡ o
    → with_secret (Option.bind o nullable_string) m ≡ m
unfolding with_secret Option.bind
with_secret-same m none h = refl
with_secret-same m (some s) h = elim (Bool-cases (is_nil s)) [
  | inl empty ↦ rw empty refl
  | inr there ↦ rw there (put-same secret_hash s m h)
]

nullable-back : (s : Text) → Option.get_or (nullable_string s) [] ≡ s
nullable-back [] = refl
nullable-back (c ∷ s) = refl

module _ (codec : MetadataCodec) (empties : ReadsEmpty codec) where
  stored_rows :
      (sub : Subject) (rows after : Map Text SubjectRow)
      → put_subject codec sub rows ≡ some after
      → put sub.id (subject_row codec sub) rows ≡ after
  unfolding put_subject
  stored_rows sub rows after h = elim (Bool-cases (is_nil sub.id)) [
    | inl empty ↦ cc (rw empty at h)
    | inr there ↦ some_inj.0 (rw there at h)
  ]

  read_metadata-some :
      (t : Text) (p : Text × Text) (m : Map Text Text)
      → codec.read t ≡ some (p ∷ m)
      → read_metadata codec t ≡ p ∷ m
  unfolding read_metadata
  read_metadata-some [] p m h = cc (h, empties.refuses_nothing)
  read_metadata-some (c ∷ t) p m h = elim (Bool-cases (text_eq (c ∷ t) (codes "{}"))) [
    | inl empty ↦ cc (h, empties.reads_empty, (text_eq_iff (c ∷ t) (codes "{}")).0 empty)
    | inr other ↦ rw (other, h) refl
  ]

  metadata-back :
      (m : Map Text Text)
      → codec.read (codec.write m) ≡ some m
      → read_metadata codec (metadata_text codec m) ≡ m
  metadata-back [] reads = unfold read_metadata text_eq in refl
  metadata-back (p ∷ m) reads = read_metadata-some (codec.write (p ∷ m)) p m reads

  subject_of-row :
      (sub : Subject)
      → codec.read (codec.write sub.metadata) ≡ some sub.metadata
      → subject_of codec (subject_row codec sub) ≡ sub
  unfolding subject_of subject_row
  subject_of-row sub reads =
      rw
        (
          nullable-back sub.email,
          metadata-back sub.metadata reads,
          with_secret-same sub.metadata (lookup secret_hash sub.metadata) refl,
        )
        refl

  -- A subject that is stored is read back as it was, its hash included, by its ID, and no other subject's
  -- row changes. The codec reads back the metadata of this subject, reads an empty object as such, and reads
  -- nothing from an empty text.
  pub get_subject-put_subject :
      (sub : Subject) (rows after : Map Text SubjectRow)
      → codec.read (codec.write sub.metadata) ≡ some sub.metadata
      → put_subject codec sub rows ≡ some after
      → (get_subject codec after sub.id ≡ some sub)
        × ((j : Text)
            → text_eq sub.id j ≡ false
            → get_subject codec after j ≡ get_subject codec rows j)
  unfolding get_subject
  get_subject-put_subject sub rows after reads h =
      let is_after : put sub.id (subject_row codec sub) rows ≡ after =
        stored_rows sub rows after h in
      rw (← is_after) (
        rw (lookup-put sub.id sub.id (subject_row codec sub) rows, text_eq_refl sub.id)
            (ap some (subject_of-row sub reads)),
        λ j other. rw (lookup-put sub.id j (subject_row codec sub) rows, other) refl,
      )
