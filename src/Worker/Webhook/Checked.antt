-- ===== src/Worker/Webhook/Checked.antt =====
-- Which URLs a webhook is sent to.
use atlas_queue.Prelude.{
  ◌≡◌, ◌↔◌, refl, String, str_eq, eq_iff, starts_with, starts_with_iff, IsPrefix, Bool, true, false,
  ◌||◌, List, [], ◌∷◌, any, ◌⊎◌, inl, inr, if◌then◌else◌, subst,
}
use atlas_queue.Domain.Exceptions.{Exc, Result, ok, err, ◌>>=◌}
use atlas_queue.Domain.Task.{Task, null}
use atlas_queue.Runtime.World.{Settings}
use atlas_queue.Worker.Webhook.{
  ParsedUrl, Texts, HttpRequest, is_private, is_truthy, get_or, host_of, check_parsed,
  validate_webhook_url, prepare, request_for,
}

abbrev pub AnyOf : (String → Type 0) → List String → Type 0
AnyOf P [] = ⊥
AnyOf P (s ∷ ss) = P s ⊎ AnyOf P ss

abbrev names : List String
names = "localhost" ∷ "127.0.0.1" ∷ "0.0.0.0" ∷ "::1" ∷ []

abbrev schemes : List String
schemes = "http" ∷ "https" ∷ []

-- The hosts that the check refuses: four names, and what begins with one of three texts. Other
-- addresses of private networks, as 169.254.169.254, are not among them.
abbrev pub Listed : String → Type 0
Listed host =
    AnyOf (λ s. host ≡ s) names
    ⊎ (IsPrefix "10." host ⊎ (IsPrefix "192.168." host ⊎ IsPrefix "172." host))

-- a test that says whether something holds
pub data Decides (b : Bool) (P : Type 0) : Type 0 where
  yes : b ≡ true → P → Decides b P
  no : b ≡ false → ¬ P → Decides b P

decides : (b : Bool) (P : Type 0) → (b ≡ true) ↔ P → Decides b P
decides true P h = yes refl (h.0 refl)
decides false P h = no refl (λ p. cc (h.1 p))

either : (a b : Bool) (P Q : Type 0) → Decides a P → Decides b Q → Decides (a || b) (P ⊎ Q)
either a b P Q (yes e p) d = rw e (yes refl (inl p))
either a b P Q (no e p) (yes f q) = rw (e, f) (yes refl (inr q))
either a b P Q (no e p) (no f q) = rw (e, f) (no refl (elim [ inl x ↦ p x | inr y ↦ q y ]))

any_decides :
    (p : String → Bool) (P : String → Type 0) (ss : List String)
    → ((s : String) → Decides (p s) (P s))
    → Decides (any p ss) (AnyOf P ss)
any_decides p P [] h = no refl (λ x. x)
any_decides p P (s ∷ ss) h = one_more (p s) (h s) (any_decides p P ss h)
  where
    one_more :
        (b : Bool)
        → Decides b (P s)
        → Decides (any p ss) (AnyOf P ss)
        → Decides (if b then true else any p ss) (P s ⊎ AnyOf P ss)
    one_more b (yes e x) d = rw e (yes refl (inl x))
    one_more b (no e x) (yes f y) = rw (e, f) (yes refl (inr y))
    one_more b (no e x) (no f y) = rw (e, f) (no refl (elim [ inl z ↦ x z | inr z ↦ y z ]))

same_decides : (s t : String) → Decides (str_eq s t) (s ≡ t)
same_decides s t = decides (str_eq s t) (s ≡ t) (eq_iff s t)

prefix_decides : (host s : String) → Decides (starts_with host s) (IsPrefix s host)
prefix_decides host s = decides (starts_with host s) (IsPrefix s host) (starts_with_iff host s)

is_private-Decides : (host : String) → Decides (is_private host) (Listed host)
is_private-Decides host =
    either _ _ _ _ (any_decides (str_eq host) (λ s. host ≡ s) names (same_decides host)) (
      either _ _ _ _ (prefix_decides host "10.")
        (either _ _ _ _ (prefix_decides host "192.168.") (prefix_decides host "172.")))

module _ (texts : Texts) (settings : Settings) where
  -- a URL of http or https, to a host that the check does not refuse
  abbrev pub Unlisted : String → Type 0
  Unlisted url =
      (u : ParsedUrl) × (texts.urlparse url ≡ ok u)
      × AnyOf (λ s. u.scheme ≡ s) schemes
      × ¬ Listed (host_of texts settings u)

  check_parsed_iff :
      (u : ParsedUrl)
      → (check_parsed texts settings u ≡ ok tt)
        ↔ (AnyOf (λ s. u.scheme ≡ s) schemes × ¬ Listed (host_of texts settings u))
  check_parsed_iff u =
      both _ _ _ _
        (any_decides (str_eq u.scheme) (λ s. u.scheme ≡ s) schemes (same_decides u.scheme))
        (is_private-Decides (host_of texts settings u)) _ _
    where
      outcome : Bool → Bool → Exc → Exc → Result (Unit {0})
      outcome a b e f = if a then (if b then err e else ok tt) else err f

      both :
          (a b : Bool) (P Q : Type 0)
          → Decides a P
          → Decides b Q
          → (e f : Exc) → (outcome a b e f ≡ ok tt) ↔ (P × ¬ Q)
      both a b P Q (no x p) d e f = rw x (λ h. cc, λ h. absurd (p h.0))
      both a b P Q (yes x p) (yes y q) e f = rw (x, y) (λ h. cc, λ h. absurd (h.1 q))
      both a b P Q (yes x p) (no y q) e f = rw (x, y) (λ h. (p, q), λ h. refl)

  abbrev Fine : ParsedUrl → Type 0
  Fine u = AnyOf (λ s. u.scheme ≡ s) schemes × ¬ Listed (host_of texts settings u)

  checked_url :
      (r : Result ParsedUrl)
      → (r >>= check_parsed texts settings ≡ ok tt) ↔ (
          (u : ParsedUrl) × (r ≡ ok u)
          × AnyOf (λ s. u.scheme ≡ s) schemes
          × ¬ Listed (host_of texts settings u))
  checked_url (ok u) = (
    λ h. let (a, b) = (check_parsed_iff u).0 h in (u, refl, a, b),
    λ (v, e, a, b). (check_parsed_iff u).1 (subst Fine (inside e) (a, b)),
  )
    where
      inside : {v : ParsedUrl} → ok u ≡ ok v → v ≡ u
      inside e = cc
  checked_url (err e) = (λ h. cc, λ x. cc x.1)

-- The check passes a URL exactly when it is switched off, or the URL is one of http or https to a
-- host that it does not refuse.
pub validate_webhook_url_iff :
    (texts : Texts) (settings : Settings) (url : String)
    → (validate_webhook_url texts settings url ≡ ok tt)
      ↔ ((settings.block_private_webhook_urls ≡ false) ⊎ Unlisted texts settings url)
unfolding validate_webhook_url
validate_webhook_url_iff texts settings url = by_switch settings.block_private_webhook_urls
  where
    by_switch :
        (b : Bool)
        → ((if b then texts.urlparse url >>= check_parsed texts settings else ok tt) ≡ ok tt)
          ↔ ((b ≡ false) ⊎ Unlisted texts settings url)
    by_switch true = (
      λ h. inr ((checked_url texts settings (texts.urlparse url)).0 h),
      elim [ inl e ↦ cc | inr p ↦ (checked_url texts settings (texts.urlparse url)).1 p ],
    )
    by_switch false = (λ h. inl refl, λ h. refl)

-- A request that is made while the check is on goes to a URL of http or https whose host, in lower
-- case, is not localhost, 127.0.0.1, 0.0.0.0 or ::1 and does not begin with 10., 192.168. or 172.,
-- and waits as long as the task may take.
pub prepare-Unlisted :
    (texts : Texts) (settings : Settings) (task : Task) (request : HttpRequest)
    → settings.block_private_webhook_urls ≡ true
    → prepare texts settings task ≡ ok request
    → Unlisted texts settings request.url × (request.timeout ≡ task.timeout_seconds)
unfolding prepare
prepare-Unlisted texts settings task request on h =
    by_url (is_truthy (get_or "url" null task.payload)) (validate_webhook_url texts settings url) _
      refl h
  where
    url : String
    url = texts.str (get_or "url" null task.payload)

    is_on :
        (settings.block_private_webhook_urls ≡ false) ⊎ Unlisted texts settings url
        → Unlisted texts settings url
    is_on (inl off) = cc
    is_on (inr p) = p

    sent :
        request_for texts settings task url ≡ request
        → Unlisted texts settings url
        → Unlisted texts settings request.url × (request.timeout ≡ task.timeout_seconds)
    sent e p =
        subst (λ r. Unlisted texts settings r.url × (r.timeout ≡ task.timeout_seconds)) e (p, refl)

    by_url :
        (b : Bool) (r : Result (Unit {0})) (x : Exc)
        → validate_webhook_url texts settings url ≡ r
        → (if b then r >>= (λ _. ok (request_for texts settings task url)) else err x) ≡ ok request
        → Unlisted texts settings request.url × (request.timeout ≡ task.timeout_seconds)
    by_url true (ok tt) x v e =
        sent (inside e) (is_on ((validate_webhook_url_iff texts settings url).0 v))
      where
        inside : {a b : HttpRequest} → ok a ≡ ok b → a ≡ b
        inside e = cc
    by_url true (err y) x v e = cc
    by_url false r x v e = cc
