-- ===== src/Server/Sent.antt =====
-- Specifications that JSON reads back.
use proxa.Prelude.{if◌then◌else◌, subst, ◌≡◌, inl, inr, sym, ◌∙◌, List, [], ◌∷◌, some, Bool-cases}
use proxa.Prelude.Int.{ℤ, wrap64}
use proxa.Prelude.Text.{Text}
use proxa.Prelude.Maps.{text-Eq}
use proxa.Types.{TaskDef, Service}
use proxa.Store.{ok, Codec, key_eq, key-Eq, Tables, get_service}
use proxa.Store.Access.{key_of}
use proxa.Store.Consistent.{IsConsistent}
use proxa.Server.{Request, upsert_service, scale_service}
use proxa.Server.Upsert.{get-same_services}
use proxa.Server.Isolated.{RoutesApart}

-- The tables are consistent, and the routes of the services stay apart.
abbrev pub IsSafe : Codec → Tables → Type 0
IsSafe codec t = IsConsistent t × RoutesApart codec t

pub same_apart :
    (codec : Codec) (t u : Tables)
    → u.services ≡ t.services
    → RoutesApart codec t
    → RoutesApart codec u
same_apart codec t u e r = record {
  apart = λ p n q m a b x y ga gb differ mx my host.
      r.apart p n q m a b x y (sym (get-same_services codec p n t u e) ∙ ga)
        (sym (get-same_services codec q m t u e) ∙ gb) differ mx my host;
}

-- A number of replicas is an `int`, of 64 bits.
abbrev pub IsInt : ℤ → Type 0
IsInt n = wrap64 n ≡ n

-- JSON reads a specification back, with any number of replicas.
abbrev pub ReadsBack : Codec → TaskDef → Type 0
ReadsBack codec spec =
    (n : ℤ)
    → IsInt n
    → codec.read (codec.write (record spec { replicas = n })) ≡ some (record spec { replicas = n })

-- So it does every specification that is stored.
abbrev pub StoredReadBack : Codec → Tables → Type 0
StoredReadBack codec t =
    (p n : Text) (svc : Service) → get_service codec p n t ≡ ok svc → ReadsBack codec svc.spec

-- And every one that a request brings.
abbrev pub SentReadsBack : Codec → Request → Type 0
SentReadsBack codec (upsert_service now project name (some spec)) =
    IsInt spec.replicas × ReadsBack codec spec
SentReadsBack codec (scale_service now project name (some n)) = IsInt n
SentReadsBack codec _ = Unit

abbrev pub AllSentReadBack : Codec → List Request → Type 0
AllSentReadBack codec [] = Unit
AllSentReadBack codec (r ∷ rest) = SentReadsBack codec r × AllSentReadBack codec rest

abbrev pub IsReadable : Codec → Tables → Type 0
IsReadable codec t = IsSafe codec t × StoredReadBack codec t

pub same_stored :
    (codec : Codec) (t u : Tables)
    → u.services ≡ t.services
    → StoredReadBack codec t
    → StoredReadBack codec u
same_stored codec t u e stored p n svc g =
    stored p n svc (sym (get-same_services codec p n t u e) ∙ g)

pub replaced_stored :
    (codec : Codec) (t u : Tables) (project name : Text) (svc : Service)
    → ((p n : Text)
        → get_service codec p n u
          ≡ (if key_eq (key_of project name) (key_of p n) then ok svc else get_service codec p n t))
    → ReadsBack codec svc.spec
    → StoredReadBack codec t
    → StoredReadBack codec u
replaced_stored codec t u project name svc reads new stored p n a g =
    elim (Bool-cases (key_eq (key_of project name) (key_of p n))) [
      | inl here ↦
          let same : svc ≡ a = ok_inj (rw here at (sym (reads p n) ∙ g)) in
          subst (λ (b : Service). ReadsBack codec b.spec) same new
      | inr away ↦ stored p n a (rw away at (sym (reads p n) ∙ g))
    ]
  where
    ok_inj : {x y : Service} → ok x ≡ ok y → x ≡ y
    ok_inj e = cc
