-- ===== src/App/Bootstrap.antt =====
-- Which starts a loaded configuration can make fail.
use microhook.Prelude.{
  ℕ, ◌*◌, ◌%◌, ◌^◌, ◌≤◌, ◌<◌, ◌≡◌, refl, pos, is_neg, int64_of, Text, true, false, List, [], ◌∷◌,
  ok, err, All, arith, ltb, ltb_iff,
}
use microhook.Config.{Action, Token}
use microhook.Config.Load.{Config}
use microhook.Config.Load.Loaded.{IsReadyToken}
use microhook.Auth.{TokenCredential, new, new_credential, new_identity}
use microhook.Auth.Credentials.{nonempty_of_validate}
use microhook.Storage.{invalid_retention}
use microhook.Storage.Session.{Store}
use microhook.Storage.Rows.{Json}
use microhook.Storage.Repository.{apply_retention}
use microhook.Execution.Service.{new_service}
use microhook.App.{times, hour, max_age, retention_failed, bootstrap}

times-exact :
    (m n : ℕ) → m < 2 ^ 64 → n < 2 ^ 64 → m * n < 2 ^ 63 → times (pos m) (pos n) ≡ pos (m * n)
unfolding times int64_of
times-exact m n hm hn h =
    let em : m % 2 ^ 64 ≡ m = omega arith in
    let en : n % 2 ^ 64 ≡ n = omega arith in
    let e : m * n % 2 ^ 64 ≡ m * n = omega arith in rw (em, en, e, (ltb_iff (m * n) (2 ^ 63)).1 h)

times-is_neg :
    (m n : ℕ)
    → m < 2 ^ 64
    → n < 2 ^ 64
    → 2 ^ 63 ≤ m * n
    → m * n < 2 ^ 64
    → is_neg (times (pos m) (pos n)) ≡ true
unfolding times int64_of
times-is_neg m n hm hn h k =
    let em : m % 2 ^ 64 ≡ m = omega arith in
    let en : n % 2 ^ 64 ≡ n = omega arith in
    let e : m * n % 2 ^ 64 ≡ m * n = omega arith in
    let over : ltb (m * n) (2 ^ 63) ≡ false = ground arith in rw (em, en, e, over)

-- Up to 106751 days the age is the configured number of days, in nanoseconds.
pub max_age-exact : (days : ℕ) → days ≤ 106751 → max_age (pos days) ≡ pos (days * 24 * hour)
unfolding max_age
max_age-exact days h =
    rw (times-exact days 24 (omega arith) (omega arith) (omega arith))
      (times-exact (days * 24) hour (omega arith) (omega arith) (omega arith))

max_age-is_neg : (days : ℕ) → 106752 ≤ days → days ≤ 213503 → is_neg (max_age (pos days)) ≡ true
unfolding max_age
max_age-is_neg days h k =
    rw (times-exact days 24 (omega arith) (omega arith) (omega arith))
      (times-is_neg (days * 24) hour (omega arith) (omega arith) (omega arith) (omega arith))

module _ (digest : Text → Text) where
  new_credential-IsReadyToken :
      (actions : List Action) (t : Token)
      → IsReadyToken actions t
      → new_credential digest t ≡ ok (record { identity = new_identity t; digest = digest t.value })
  unfolding new_credential
  new_credential-IsReadyToken actions t r =
      rw (r.named, nonempty_of_validate digest t.value r.value, r.value)

  -- The credentials of tokens that are ready can be made.
  pub new-IsReadyToken :
      (actions : List Action) (tokens : List Token)
      → All (IsReadyToken actions) tokens
      → (credentials : List TokenCredential) × (new digest tokens ≡ ok credentials)
  unfolding new
  new-IsReadyToken actions [] h = ([], refl)
  new-IsReadyToken actions (t ∷ tokens) (r, h) =
      let (rest, e) = new-IsReadyToken actions tokens h in
      (
        record { identity = new_identity t; digest = digest t.value } ∷ rest,
        rw (new_credential-IsReadyToken actions t r, e) refl,
      )

module _ (json : Json) (digest : Text → Text) (format_int : ℕ → Text) (now : ℕ) (cfg : Config) where
  -- With a configuration that asks to keep runs for 106752 to 213503 days, every start fails and
  -- changes nothing: the number of nanoseconds wraps around to a negative age.
  pub bootstrap_overflow :
      (days : ℕ) (store : Store)
      → cfg.storage.retention_days ≡ pos days
      → 106752 ≤ days
      → days ≤ 213503
      → bootstrap json digest format_int now cfg store
        ≡ (err (retention_failed invalid_retention), new_service store)
  unfolding bootstrap apply_retention
  bootstrap_overflow days store e h k = rw (e, max_age-is_neg days h k)
