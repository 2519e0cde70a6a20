-- ===== src/Server/Scale.antt =====
-- What the handlers that scale and delete a service leave.
use proxa.Prelude.{◌≡◌, ◌⊎◌, inl, inr, refl, false, some, Bool-cases}
use proxa.Prelude.Int.{ℤ, pos, ltb_ℤ}
use proxa.Prelude.Text.{Text}
use proxa.Types.{Service}
use proxa.Hash.{Encoding}
use proxa.Store.{
  not_found, already_exists, other_error, Result, ok, err, Codec, Tables, put_service, get_service,
  delete_service,
}
use proxa.Server.{
  service_json, Outcome, service_of, finish_delete, handle_delete_service, finish_scale, scaled,
  found_scale, handle_scale_service,
}

module _ (codec : Codec) (enc : Encoding) (now project name : Text) where
  -- A scale that went through: the service was there, and it was put with the new number.
  abbrev pub Scaled : ℤ → Tables → Outcome → Type 0
  Scaled replicas t o =
      (svc : Service) × (get_service codec project name t ≡ ok svc)
      × (put_service codec enc now project (scaled codec enc now project name replicas svc) t
          ≡ ok o.tables)
      × (o.reply ≡ service_json 200 (service_of (get_service codec project name o.tables)))

  abbrev pub Unchanged : Tables → Outcome → Type 0
  Unchanged t o = (o.poked ≡ false) × (o.tables ≡ t)

  after_put :
      (replicas : ℤ) (t : Tables) (svc : Service) (r : Result Tables)
      → get_service codec project name t ≡ ok svc
      → put_service codec enc now project (scaled codec enc now project name replicas svc) t ≡ r
      → Unchanged t (finish_scale codec enc now project name t r)
        ⊎ Scaled replicas t (finish_scale codec enc now project name t r)
  unfolding finish_scale
  after_put replicas t svc (err e) g p = inl (refl, refl)
  after_put replicas t svc (ok u) g p = inr (svc, g, p, refl)

  after_get :
      (replicas : ℤ) (t : Tables) (r : Result Service)
      → get_service codec project name t ≡ r
      → Unchanged t (found_scale codec enc now project name replicas t r)
        ⊎ Scaled replicas t (found_scale codec enc now project name replicas t r)
  unfolding found_scale
  after_get replicas t (err not_found) g = inl (refl, refl)
  after_get replicas t (err already_exists) g = inl (refl, refl)
  after_get replicas t (err other_error) g = inl (refl, refl)
  after_get replicas t (ok svc) g = after_put replicas t svc _ g refl

  pub scale-cases :
      (replicas : ℤ) (t : Tables)
      → Unchanged t (handle_scale_service codec enc now project name (some replicas) t)
        ⊎ Scaled replicas t (handle_scale_service codec enc now project name (some replicas) t)
  unfolding handle_scale_service
  scale-cases replicas t = elim (Bool-cases (ltb_ℤ replicas (pos 0))) [
    | inl negative ↦ rw negative (inl (refl, refl))
    | inr fine ↦ rw fine (after_get replicas t _ refl)
  ]

  pub delete-cases :
      (t : Tables)
      → Unchanged t (handle_delete_service codec enc now project name t)
        ⊎ (delete_service project name t
            ≡ ok (handle_delete_service codec enc now project name t).tables)
  unfolding handle_delete_service finish_delete
  delete-cases t = after_delete (delete_service project name t) refl
    where
      after_delete :
          (r : Result Tables)
          → delete_service project name t ≡ r
          → Unchanged t (finish_delete codec enc now project name t r)
            ⊎ (delete_service project name t
                ≡ ok (finish_delete codec enc now project name t r).tables)
      after_delete (err not_found) e = inl (refl, refl)
      after_delete (err already_exists) e = inl (refl, refl)
      after_delete (err other_error) e = inl (refl, refl)
      after_delete (ok u) e = inr e
