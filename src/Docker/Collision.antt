-- ===== src/Docker/Collision.antt =====
-- Different replicas may get the same container name.
use mathlib.Core.List.{append_assoc}
use proxa.Prelude.{◌≡◌, refl, ◌∷◌, ◌++◌}
use proxa.Prelude.Int.{ℤ}
use proxa.Prelude.Text.{Text, show_ℤ}
use proxa.Docker.{container_name_for}

-- A hyphen inside a name is not told from the separator: service "q-s" of project "p" and service
-- "s" of project "p-q" get the same container name for each replica, for all names p, q and s.
container_name_for-hyphen :
    (p q s : Text) (r : ℤ)
    → container_name_for (p ++ (b'-' ∷ q)) s r ≡ container_name_for p (q ++ (b'-' ∷ s)) r
unfolding container_name_for
container_name_for-hyphen p q s r =
    let rest : Text = b'-' ∷ show_ℤ r in
    rw (append_assoc p (b'-' ∷ q) (b'-' ∷ (s ++ rest))) (rw (append_assoc q (b'-' ∷ s) rest) refl)
