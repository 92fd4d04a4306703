-- ===== src/Push/Access.antt =====
-- src/push.rs, src/admin.rs: the IP lists of the push server and of the admin API.
use amail_bridge.Common.{
  ℕ, ◌≡◌, refl, ◌↔◌, Bool, true, false, ◌||◌, Option, none, some, List, [], ◌∷◌, arith,
  if◌then◌else◌, Bool-cases, inl, inr, ◌⊎◌,
}
use amail_bridge.Std.Text.{Text}
use amail_bridge.Std.Ip.{IpAddr, v4, IsIp}
use amail_bridge.Security.{ip_matches, parse_cidr}
use amail_bridge.Security.Cidr.{InNetwork, ip_matches_iff, parse_cidr-IsIp}

-- One round of `filter_map`.
abbrev pub keep_some {ℓ} : {A : Type ℓ} → Option A → List A → List A
keep_some none xs = xs
keep_some (some x) xs = x ∷ xs

-- `raw.iter().filter_map(parse_cidr)`: an invalid entry is skipped.
unfoldable pub parse_ip_list : List Text → List (IpAddr × ℕ)
parse_ip_list [] = []
parse_ip_list (s ∷ raw) = keep_some (parse_cidr s) (parse_ip_list raw)

unfoldable pub matches_any : IpAddr → List (IpAddr × ℕ) → Bool
matches_any ip [] = false
matches_any ip ((net, prefix) ∷ entries) = ip_matches ip net prefix || matches_any ip entries

unfoldable pub is_nil {ℓ} : {A : Type ℓ} → List A → Bool
is_nil [] = true
is_nil (x ∷ xs) = false

-- `IpAllowlist::allows`: an empty list allows all.
unfoldable pub allows : List (IpAddr × ℕ) → IpAddr → Bool
allows entries ip = if is_nil entries then true else matches_any ip entries

-- `IpBlacklist::blocks`
unfoldable pub blocks : List (IpAddr × ℕ) → IpAddr → Bool
blocks entries ip = if is_nil entries then false else matches_any ip entries

-- `check_admin_ip`: a request without a peer address counts as 0.0.0.0.
unfoldable pub admin_allows : List (IpAddr × ℕ) → Option IpAddr → Bool
admin_allows allowed peer =
    let addr : IpAddr = elim peer [ some ip ↦ ip | none ↦ v4 0 ] in
    is_nil allowed || matches_any addr allowed

-- A parsed entry holds the address; an entry is valid.
abbrev pub InEntry : IpAddr → Option (IpAddr × ℕ) → Type 0
InEntry ip none = ⊥
InEntry ip (some (net, prefix)) = InNetwork ip net prefix

abbrev pub IsEntry : Option (IpAddr × ℕ) → Type 0
IsEntry none = ⊥
IsEntry (some entry) = Unit

-- Some configured entry is valid and holds the address.
abbrev pub Listed : IpAddr → List Text → Type 0
Listed ip [] = ⊥
Listed ip (s ∷ raw) = InEntry ip (parse_cidr s) ⊎ Listed ip raw

-- Some configured entry is valid.
abbrev pub SomeValid : List Text → Type 0
SomeValid [] = ⊥
SomeValid (s ∷ raw) = IsEntry (parse_cidr s) ⊎ SomeValid raw

matches_any-keep_some :
    (ip : IpAddr) (o : Option (IpAddr × ℕ)) (entries : List (IpAddr × ℕ))
    → ((net : IpAddr) (prefix : ℕ)
        → o ≡ some (net, prefix)
        → (ip_matches ip net prefix ≡ true) ↔ InNetwork ip net prefix)
    → (matches_any ip (keep_some o entries) ≡ true)
      ↔ (InEntry ip o ⊎ (matches_any ip entries ≡ true))
unfolding matches_any
matches_any-keep_some ip none entries h = (λ m. inr m, elim [ inl x ↦ absurd x | inr m ↦ m ])
matches_any-keep_some ip (some (net, prefix)) entries h =
    let (sound, complete) = h net prefix refl in
    (
      λ m. elim (Bool-cases (ip_matches ip net prefix)) [
        | inl e ↦ inl (sound e)
        | inr e ↦ inr (ground arith)
      ],
      elim [ inl x ↦ rw (complete x) | inr m ↦ rw m (ground arith) ],
    )

-- A list matches an address exactly when a valid entry of it holds the address.
matches_any_iff :
    (ip : IpAddr) (raw : List Text)
    → IsIp ip
    → (matches_any ip (parse_ip_list raw) ≡ true) ↔ Listed ip raw
unfolding parse_ip_list
matches_any_iff ip [] ok = unfold matches_any in (λ h. cc, λ h. absurd h)
matches_any_iff ip (s ∷ raw) ok =
    let rest = matches_any_iff ip raw ok in
    let step = matches_any-keep_some ip (parse_cidr s) (parse_ip_list raw) (λ net prefix e.
      let (net_ok, le) = parse_cidr-IsIp s net prefix e in
      ip_matches_iff ip net prefix ok net_ok le) in
    (
      λ m. elim (step.0 m) [ inl x ↦ inl x | inr y ↦ inr (rest.0 y) ],
      elim [ inl x ↦ step.1 (inl x) | inr y ↦ step.1 (inr (rest.1 y)) ],
    )

is_nil-keep_some :
    {A : Type 0} (o : Option A) (xs : List A)
    → is_nil (keep_some o xs) ≡ (elim o [ none ↦ is_nil xs | some _ ↦ false ])
unfolding is_nil
is_nil-keep_some none xs = refl
is_nil-keep_some (some x) xs = refl

SomeValid-cases :
    (o : Option (IpAddr × ℕ)) (raw : List Text) (xs : List (IpAddr × ℕ))
    → (is_nil xs ≡ false) ↔ SomeValid raw
    → (is_nil (keep_some o xs) ≡ false) ↔ (IsEntry o ⊎ SomeValid raw)
unfolding is_nil
SomeValid-cases none raw xs (to, from) =
    (λ h. inr (to h), elim [ inl x ↦ absurd x | inr v ↦ from v ])
SomeValid-cases (some entry) raw xs (to, from) = (λ h. inl tt, λ v. refl)

is_nil-parse_ip_list : (raw : List Text) → (is_nil (parse_ip_list raw) ≡ false) ↔ SomeValid raw
unfolding parse_ip_list
is_nil-parse_ip_list [] = unfold is_nil in (λ h. cc, λ h. absurd h)
is_nil-parse_ip_list (s ∷ raw) =
    SomeValid-cases (parse_cidr s) raw (parse_ip_list raw) (is_nil-parse_ip_list raw)

not-Listed-nil :
    (ip : IpAddr) (raw : List Text) → is_nil (parse_ip_list raw) ≡ true → ¬ SomeValid raw
not-Listed-nil ip raw h v = cc ((is_nil-parse_ip_list raw).1 v)

-- The allowlist admits an address exactly when a valid entry holds it, unless no entry is valid:
-- then it admits every address.
pub allows_iff :
    (ip : IpAddr) (raw : List Text)
    → IsIp ip
    → (allows (parse_ip_list raw) ip ≡ true) ↔ (SomeValid raw → Listed ip raw)
unfolding allows
allows_iff ip raw ok =
    let (listed, matched) = matches_any_iff ip raw ok in
    let (valid, some_entry) = is_nil-parse_ip_list raw in
    (
      λ h v. listed (rw (some_entry v) at h),
      λ h. elim (Bool-cases (is_nil (parse_ip_list raw))) [
        | inl e ↦ rw e
        | inr e ↦ rw e (matched (h (valid e)))
      ],
    )

Listed-SomeValid : (ip : IpAddr) (raw : List Text) → Listed ip raw → SomeValid raw
Listed-SomeValid ip [] l = l
Listed-SomeValid ip (s ∷ raw) (inl x) = inl (valid_of_InEntry (parse_cidr s) x)
  where
    valid_of_InEntry : (o : Option (IpAddr × ℕ)) → InEntry ip o → IsEntry o
    valid_of_InEntry none x = x
    valid_of_InEntry (some entry) x = tt
Listed-SomeValid ip (s ∷ raw) (inr l) = inr (Listed-SomeValid ip raw l)

-- The blacklist blocks an address exactly when a valid entry holds it.
pub blocks_iff :
    (ip : IpAddr) (raw : List Text)
    → IsIp ip
    → (blocks (parse_ip_list raw) ip ≡ true) ↔ Listed ip raw
unfolding blocks
blocks_iff ip raw ok =
    let (listed, matched) = matches_any_iff ip raw ok in
    let (valid, some_entry) = is_nil-parse_ip_list raw in
    (
      λ h. elim (Bool-cases (is_nil (parse_ip_list raw))) [
        | inl e ↦ absurd (ground arith)
        | inr e ↦ listed (rw e at h)
      ],
      λ l. rw (some_entry (Listed-SomeValid ip raw l)) (matched l),
    )

-- The admin API admits a peer exactly when a valid entry holds its address, or no entry is valid.
-- A request without a peer address is judged as 0.0.0.0.
pub admin_allows_iff :
    (peer : Option IpAddr) (ip : IpAddr) (raw : List Text)
    → (peer ≡ some ip) ⊎ ((peer ≡ none) × (ip ≡ v4 0))
    → IsIp ip
    → (admin_allows (parse_ip_list raw) peer ≡ true) ↔ (SomeValid raw → Listed ip raw)
unfolding admin_allows
admin_allows_iff peer ip raw who ok =
    let same_test : admin_allows (parse_ip_list raw) peer ≡ allows (parse_ip_list raw) ip =
      unfold allows in ground arith in
    rw same_test (allows_iff ip raw ok)
