-- ===== src/Controller/Override/Maps.antt =====
-- The maps of groups and of secrets that OverrideConfigAction makes, at one connection.
use ipman.Prelude.{
  String, ◌==◌, ◌≡◌, ◌⊎◌, inl, inr, sym, ap, ◌∙◌, Bool, true, false, ◌||◌, List, [], ◌∷◌, Option,
  none, some, Map, get_or, lookup, insert, lookup-insert, In, Bool-cases, arith, eq_iff, eq_refl,
}
use ipman.Errors.{bind-done, Try, done}
use ipman.Api.{IpSecConnection, CharonGroup, CharonGroupRef, SecretRef, same_nsn}
use ipman.Controller.Desired.{get_group, ref_of}
use ipman.Controller.Override.{no_group, group_at, config_groups, get_secret, config_secrets}

unfoldable pub is_named : String → List IpSecConnection → Bool
is_named k [] = false
is_named k (c ∷ cs) = c.name == k || is_named k cs

-- No two connections have the same name.
unfoldable pub IsApart : List IpSecConnection → Type 0
unfolding is_named
IsApart [] = Unit
IsApart (c ∷ cs) = (is_named c.name cs ≡ false) × IsApart cs

is_named-In :
    (c : IpSecConnection) (cs : List IpSecConnection) (k : String)
    → In c cs
    → is_named k cs ≡ false
    → (c.name == k) ≡ false
unfolding is_named
is_named-In c [] k i h = absurd i
is_named-In c (x ∷ xs) k (inl e) h = rw (sym e) (ground arith)
is_named-In c (x ∷ xs) k (inr i) h = is_named-In c xs k i (ground arith)

config_groups_keep :
    (listed : Try (List CharonGroup)) (cs : List IpSecConnection) (m gs : Map CharonGroup)
    (k : String)
    → config_groups listed cs m ≡ done gs
    → is_named k cs ≡ false
    → lookup k gs ≡ lookup k m
unfolding config_groups is_named
config_groups_keep listed [] m gs k h n = cc
config_groups_keep listed (c ∷ cs) m gs k h n =
    let (g, found, rest) = bind-done (get_group listed c.spec.group) _ gs h in
    let later = config_groups_keep listed cs (insert c.name g m) gs k rest (ground arith) in
    ground (arith, later, lookup-insert c.name k g m, eq_iff c.name k)

pub config_groups-In :
    (listed : Try (List CharonGroup)) (cs : List IpSecConnection) (m gs : Map CharonGroup)
    (c : IpSecConnection)
    → config_groups listed cs m ≡ done gs
    → IsApart cs
    → In c cs
    → get_group listed c.spec.group ≡ done (group_at gs c)
unfolding config_groups IsApart
config_groups-In listed [] m gs c h apart i = absurd i
config_groups-In listed (x ∷ xs) m gs c h (new, apart) (inr i) =
    let (g, found, rest) = bind-done (get_group listed x.spec.group) _ gs h in
    config_groups-In listed xs (insert x.name g m) gs c rest apart i
config_groups-In listed (x ∷ xs) m gs c h (new, apart) (inl e) =
    let (g, found, rest) = bind-done (get_group listed x.spec.group) _ gs h in
    let at : lookup x.name gs ≡ some g = ground (
      arith,
      config_groups_keep listed xs (insert x.name g m) gs x.name rest new,
      lookup-insert x.name x.name g m,
      eq_refl x.name,
    ) in
    rw (sym e) (found ∙ ap done (sym (ap (get_or no_group) at)))

module _ (secret : SecretRef → Try (Option (Map String))) (own : CharonGroupRef)
    (groups : Map CharonGroup) where
  abbrev pub is_own : IpSecConnection → Bool
  is_own c = same_nsn (ref_of (group_at groups c)) own

  config_secrets-cons :
      (c : IpSecConnection) (cs : List IpSecConnection) (m ss : Map String)
      → config_secrets secret own groups (c ∷ cs) m ≡ done ss
      → ((is_own c ≡ true)
          × ((text : String) × (get_secret secret c ≡ done text)
              × (config_secrets secret own groups cs (insert c.name text m) ≡ done ss)))
        ⊎ ((is_own c ≡ false) × (config_secrets secret own groups cs m ≡ done ss))
  unfolding config_secrets
  config_secrets-cons c cs m ss h = elim (Bool-cases (is_own c)) [
    | inl e ↦ inl (e, bind-done (get_secret secret c) _ ss (rw (config_secrets, e) at h))
    | inr e ↦ inr (e, rw (config_secrets, e) at h)
  ]

  config_secrets_keep :
      (cs : List IpSecConnection) (m ss : Map String) (k : String)
      → config_secrets secret own groups cs m ≡ done ss
      → is_named k cs ≡ false
      → lookup k ss ≡ lookup k m
  unfolding config_secrets is_named
  config_secrets_keep [] m ss k h n = cc
  config_secrets_keep (c ∷ cs) m ss k h n = elim (config_secrets-cons c cs m ss h) [
    | inl (o, (text, read, rest)) ↦
        let later = config_secrets_keep cs (insert c.name text m) ss k rest (ground arith) in
        ground (arith, later, lookup-insert c.name k text m, eq_iff c.name k)
    | inr (o, rest) ↦ config_secrets_keep cs m ss k rest (ground arith)
  ]

  -- What the map of secrets has for a connection that is new to it.
  unfoldable pub Given : IpSecConnection → String → Type 0
  Given c text =
      ((is_own c ≡ true) → get_secret secret c ≡ done text) × ((is_own c ≡ false) → text ≡ "")

  pub config_secrets-In :
      (cs : List IpSecConnection) (m ss : Map String) (c : IpSecConnection)
      → config_secrets secret own groups cs m ≡ done ss
      → IsApart cs
      → In c cs
      → lookup c.name m ≡ none
      → Given c (get_or "" (lookup c.name ss))
  unfolding IsApart Given
  config_secrets-In [] m ss c h apart i new = absurd i
  config_secrets-In (x ∷ xs) m ss c h (once, apart) (inr i) new =
      elim (config_secrets-cons x xs m ss h) [
        | inl (o, (text, read, rest)) ↦
            config_secrets-In xs (insert x.name text m) ss c rest apart i (
              ground (
                arith,
                new,
                once,
                is_named-In c xs x.name i once,
                lookup-insert x.name c.name text m,
                eq_iff x.name c.name,
                eq_iff c.name x.name,
              ))
        | inr (o, rest) ↦ config_secrets-In xs m ss c rest apart i new
      ]
  config_secrets-In (x ∷ xs) m ss c h (once, apart) (inl e) new =
      elim (config_secrets-cons x xs m ss h) [
        | inl (o, (text, read, rest)) ↦
            let at : lookup x.name ss ≡ some text = ground (
              arith,
              config_secrets_keep xs (insert x.name text m) ss x.name rest once,
              lookup-insert x.name x.name text m,
              eq_refl x.name,
            ) in
            rw (sym e) ((λ own. read ∙ ap done (sym (ap (get_or "") at))), λ other. absurd (cc))
        | inr (o, rest) ↦
            let at : lookup x.name ss ≡ none =
              config_secrets_keep xs m ss x.name rest once ∙ (rw (sym e) at new) in
            rw (sym e) ((λ own. absurd (cc)), λ other. ap (get_or "") at)
      ]
