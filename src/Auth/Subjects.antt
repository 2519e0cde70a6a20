-- ===== src/Auth/Subjects.antt =====
-- internal/store/sqlite/auth.go: the table of subjects, and `DeletePolicy`. The JSON text of the metadata is
-- written and read by a codec.
pub mod RoundTrip
use proxa.Prelude.{
  ◌≡◌, Bool, true, false, not, ◌&&◌, List, [], ◌∷◌, Option, none, some, if◌then◌else◌, is_nil, any,
  filter,
}
use mathlib.Core.Option
use proxa.Prelude.Text.{Text, codes, text_eq}
use proxa.Prelude.Maps.{Map, lookup, put, text-Eq}
use proxa.Auth.{Policy, Policies}
use proxa.Auth.Login.{Subject, secret_hash}

-- `json.Marshal` of a map that is there, and `json.Unmarshal` into an empty one.
pub record MetadataCodec : Type 0 where
  pub write : Map Text Text → Text
  pub read : Text → Option (Map Text Text)

-- A row of `subjects`, without the time of its creation; NULL is `none`.
pub record SubjectRow : Type 0 where
  pub id : Text
  pub name : Text
  pub email : Option Text
  pub provider : Text
  pub metadata_json : Text
  pub stored_secret : Option Text

-- `nullableString`
abbrev pub nullable_string : Text → Option Text
nullable_string s = if is_nil s then none else some s

abbrev pub metadata_text : MetadataCodec → Map Text Text → Text
metadata_text codec [] = codes "{}"
metadata_text codec (p ∷ m) = codec.write (p ∷ m)

-- The hash of the metadata, if there is one.
abbrev pub secret_of : Map Text Text → Option Text
secret_of m = Option.bind (lookup secret_hash m) nullable_string

pub subject_row : MetadataCodec → Subject → SubjectRow
subject_row codec sub = record {
  id = sub.id;
  name = sub.name;
  email = nullable_string sub.email;
  provider = sub.provider;
  metadata_json = metadata_text codec sub.metadata;
  stored_secret = secret_of sub.metadata;
}

-- `PutSubject`; `none` where the ID is empty.
unfoldable pub put_subject :
    MetadataCodec → Subject → Map Text SubjectRow → Option (Map Text SubjectRow)
unfolding subject_row
put_subject codec sub rows =
    if is_nil sub.id then none else some (put sub.id (subject_row codec sub) rows)

-- The metadata as they are read; an error of `json.Unmarshal` is ignored.
pub read_metadata : MetadataCodec → Text → Map Text Text
read_metadata codec text =
    if not (is_nil text) && not (text_eq text (codes "{}"))
    then Option.get_or (codec.read text) []
    else []

pub with_secret : Option Text → Map Text Text → Map Text Text
with_secret none m = m
with_secret (some h) m = put secret_hash h m

pub subject_of : MetadataCodec → SubjectRow → Subject
unfolding read_metadata with_secret
subject_of codec r = record {
  id = r.id;
  name = r.name;
  email = Option.get_or r.email [];
  provider = r.provider;
  metadata = with_secret r.stored_secret (read_metadata codec r.metadata_json);
}

-- `GetSubject`; `none` is `ErrNotFound`.
unfoldable pub get_subject : MetadataCodec → Map Text SubjectRow → Text → Option Subject
unfolding subject_of
get_subject codec rows id = Option.map (subject_of codec) (lookup id rows)

-- `DeletePolicy`; `none` is `ErrNotFound`.
unfoldable pub delete_policy : Policies → Text → Option Policies
delete_policy rows id =
    if any (λ (p : Policy). text_eq p.id id) rows
    then some (filter (λ (p : Policy). not (text_eq p.id id)) rows)
    else none
