-- ===== src/Restctl/Reload/Replies.antt =====
-- What reloadConfig unloads, and what a good reply means.
use ipman.Prelude.{
  ℕ, zero, suc, ◌*◌, String, ◌==◌, ◌||◌, any, length, eq_iff, contains-append, lookup,
  lookup-insert, ◌≡◌, ◌≢◌, ◌↔◌, ◌⊎◌, inl, inr, refl, sym, ap, Bool, true, false, not, List, [], ◌∷◌,
  ◌++◌, Option, none, some, Map, has_key, eq_refl, In, In-append-left, In-append-right,
  In-append-cases, All, contains, keep, keys, str_cases, Bool-cases, arith,
}
use ipman.Errors.{done, fails, Try-cases}
use ipman.Restctl.Translate.{IkeConfig, translate}
use ipman.Restctl.Reload.{
  ConnData, Client, blanks, config_names, wanted_names, Reload, Wanted, once_each, unload_names,
  unload_all, flatten, add_config, collect_configs, refused_secrets, delete_all, load,
  reload_config, not_listed, list_error, not_loaded, load_errors, respond, start,
}

In-once_each : (cs : List ConnData) (a b : String) → In b (once_each cs a) ↔ ((cs ≢ []) × (a ≡ b))
unfolding once_each
In-once_each [] a b = (λ h. absurd h, λ h. absurd (h.0 refl))
In-once_each (c ∷ cs) a b = (λ h. (λ e. cc, ground (arith, In-once_each cs a b)), λ h. inl h.1)

module _ (wanted : List String) (cs : List ConnData) (name : String) where
  In-unload_names :
      (names : List String)
      → In name (unload_names wanted cs names)
        ↔ ((cs ≢ []) × In name names × (contains wanted name ≡ false))
  unfolding unload_names
  In-unload_names [] = (λ h. absurd h, λ (c, i, n). absurd i)
  In-unload_names (x ∷ names) = elim (Bool-cases (contains wanted x)) [
    | inl e ↦ rw e (ground (arith, e, In-unload_names names))
    | inr e ↦ rw e (
      λ h. elim (In-append-cases name (once_each cs x) (unload_names wanted cs names) h) [
        | inl i ↦ let (c, same) = (In-once_each cs x name).0 i in (c, inl same, rw (sym same) e)
        | inr i ↦ let (c, j, n) = (In-unload_names names).0 i in (c, inr j, n)
      ],
      λ (c, i, n). elim i [
        | inl same ↦
            In-append-left name (once_each cs x) (unload_names wanted cs names)
              ((In-once_each cs x name).1 (c, same))
        | inr j ↦
            In-append-right name (once_each cs x) (unload_names wanted cs names)
              ((In-unload_names names).1 (c, j, n))
      ],
    )
  ]

  In-unload_all :
      (loaded : List (List String))
      → In name (unload_all wanted cs loaded)
        ↔ ((cs ≢ []) × In name (flatten loaded) × (contains wanted name ≡ false))
  unfolding unload_all flatten
  In-unload_all [] = (λ h. absurd h, λ (c, i, n). absurd i)
  In-unload_all (names ∷ rest) = (
    λ h. elim (In-append-cases name (unload_names wanted cs names) (unload_all wanted cs rest) h) [
      | inl i ↦
          let (c, j, n) = (In-unload_names names).0 i in
          (c, In-append-left name names (flatten rest) j, n)
      | inr i ↦
          let (c, j, n) = (In-unload_all rest).0 i in
          (c, In-append-right name names (flatten rest) j, n)
    ],
    λ (c, i, n). elim (In-append-cases name names (flatten rest) i) [
      | inl j ↦
          In-append-left name (unload_names wanted cs names) (unload_all wanted cs rest)
            ((In-unload_names names).1 (c, j, n))
      | inr j ↦
          In-append-right name (unload_names wanted cs names) (unload_all wanted cs rest)
            ((In-unload_all rest).1 (c, j, n))
    ],
  )

contains-blanks : (k : ℕ) (n : String) → n ≢ "" → contains (blanks k) n ≡ false
unfolding blanks contains any
contains-blanks zero n h = refl
contains-blanks (suc k) n h = ground (arith, eq_iff "" n, contains-blanks k n h)

-- A configuration names a connection by its object's or by its specification's name.
abbrev pub names_conn : String → ConnData → Bool
names_conn n c = c.conn.name == n || c.conn.spec.name == n

contains-config_names :
    (cs : List ConnData) (n : String) → contains (config_names cs) n ≡ any (names_conn n) cs
unfolding config_names contains any
contains-config_names [] n = refl
contains-config_names (c ∷ cs) n = ground (arith, contains-config_names cs n)

contains-wanted_names :
    (cs : List ConnData) (n : String)
    → n ≢ ""
    → contains (wanted_names cs) n ≡ any (names_conn n) cs
unfolding wanted_names
contains-wanted_names cs n h = ground (
  arith,
  contains-append (blanks (length cs * 2)) (config_names cs) n,
  contains-blanks (length cs * 2) n h,
  contains-config_names cs n,
)

-- With at least one configuration, reloadConfig unloads exactly the loaded connections that no
-- configuration names by the connection's or the specification's name, for a name that is not
-- empty; without a configuration it unloads none.
pub In-load_unloaded :
    (client : Client) (cs : List ConnData) (w : Wanted) (name : String)
    → name ≢ ""
    → In name (load client cs w).unloaded
      ↔ ((cs ≢ []) × In name (flatten client.loaded_conns) × (any (names_conn name) cs ≡ false))
unfolding load
In-load_unloaded client cs w name h =
    rw (sym (contains-wanted_names cs name h))
      (In-unload_all (wanted_names cs) cs name client.loaded_conns)

unfoldable pub is_config : String → List ConnData → Bool
is_config k [] = false
is_config k (c ∷ cs) = c.conn.spec.name == k || is_config k cs

-- No two configurations have the same specification's name.
unfoldable pub IsApart : List ConnData → Type 0
unfolding is_config
IsApart [] = Unit
IsApart (c ∷ cs) = (is_config c.conn.spec.name cs ≡ false) × IsApart cs

-- A configuration was translated, and the result is in the map under its specification's name.
abbrev pub IsGiven : Map IkeConfig → ConnData → Type 0
IsGiven m c =
    (cfg : IkeConfig) × (translate c.conn.spec ≡ done cfg) × (lookup c.conn.spec.name m ≡ some cfg)

-- What a loop over the configurations that ends without an error has collected.
record Collected (cs : List ConnData) (w w2 : Wanted) : Type 0 where
  no_error : w.errs ≡ []
  kept : (k : String) → is_config k cs ≡ false → lookup k w2.to_load ≡ lookup k w.to_load
  added : All (IsGiven w2.to_load) cs

append_nil-left : {A : Type 0} (xs : List A) (a : A) → xs ++ a ∷ [] ≢ []
append_nil-left [] a e = cc
append_nil-left (x ∷ xs) a e = cc

collect_configs-Collected :
    (cs : List ConnData) (w w2 : Wanted)
    → collect_configs cs w ≡ done w2
    → w2.errs ≡ []
    → IsApart cs
    → Collected cs w w2
unfolding collect_configs is_config IsApart
collect_configs-Collected [] w w2 h e apart =
    let same : w ≡ w2 = cc in
    record { no_error = rw same e; kept = λ k i. rw same refl; added = tt }
collect_configs-Collected (c ∷ cs) w w2 h e (once, apart) =
    elim (Try-cases (translate c.conn.spec)) [
      | inl (cfg, t) ↦
          let rest =
            collect_configs-Collected cs (add_config c (done cfg) w) w2
              (rw (collect_configs, t) at h) e apart in
          record {
            no_error = rest.no_error;
            kept = λ k i.
                ground (arith, i, rest.kept k, lookup-insert c.conn.spec.name k cfg w.to_load);
            added = (
              (
                cfg,
                t,
                ground (
                  arith,
                  rest.kept c.conn.spec.name once,
                  lookup-insert c.conn.spec.name c.conn.spec.name cfg w.to_load,
                  eq_refl c.conn.spec.name,
                ),
              ),
              rest.added,
            );
          }
      | inr (inl (err, t)) ↦
          let rest =
            collect_configs-Collected cs (add_config c (fails err) w) w2
              (rw (collect_configs, t) at h) e apart in
          absurd (append_nil-left w.errs c.conn.spec.name rest.no_error)
      | inr (inr t) ↦ cc (rw (collect_configs, t) at h)
    ]

-- The daemon took the configurations, or lists each of their names afterwards.
abbrev pub IsLoaded : Client → Map IkeConfig → Type 0
IsLoaded client m =
    (client.load_conns m ≡ true)
    ⊎ ((conns : List (List String)) × (client.list_conns ≡ some conns)
        × ((k : String) → has_key k m ≡ true → contains (flatten conns) k ≡ true))

keep-contains :
    (p : String → Bool) (m : Map IkeConfig) (k : String)
    → keep (λ j. not (p j)) (keys m) ≡ []
    → has_key k m ≡ true
    → p k ≡ true
unfolding keep keys has_key
keep-contains p [] k h i = cc
keep-contains p ((j, v) ∷ m) k h i = elim (Bool-cases (p j)) [
  | inl e ↦ elim (str_cases j k) [
    | inl same ↦ rw (sym same) e
    | inr (n, d) ↦ keep-contains p m k (rw e at h) (rw d at i)
  ]
  | inr e ↦ cc (rw e at h)
]

not_listed-IsLoaded :
    (client : Client) (m : Map IkeConfig) (listed : Option (List (List String)))
    → client.list_conns ≡ listed
    → not_listed listed m ≡ []
    → list_error listed ≡ []
    → IsLoaded client m
not_listed-IsLoaded client m none l h e = cc
not_listed-IsLoaded client m (some conns) l h e =
    inr (conns, l, λ k i. keep-contains (contains (flatten conns)) m k h i)

not_loaded-IsLoaded :
    (client : Client) (m : Map IkeConfig)
    → not_loaded client m ≡ []
    → load_errors client m ≡ []
    → IsLoaded client m
unfolding not_loaded load_errors
not_loaded-IsLoaded client m h e = elim (Bool-cases (client.load_conns m)) [
  | inl b ↦ inl b
  | inr b ↦ not_listed-IsLoaded client m client.list_conns refl (rw b at h) (rw b at e)
]

respond_ok :
    (xs ys zs : List String) → (respond xs ys zs).status ≡ 200 → (xs ≡ []) × (ys ≡ []) × (zs ≡ [])
respond_ok [] [] [] h = (refl, refl, refl)
respond_ok [] [] (z ∷ zs) h = absurd (omega arith)
respond_ok [] (y ∷ ys) zs h = absurd (omega arith)
respond_ok (x ∷ xs) ys zs h = absurd (omega arith)

append-nil_parts : (xs ys : List String) → xs ++ ys ≡ [] → (xs ≡ []) × (ys ≡ [])
append-nil_parts [] ys h = (refl, h)
append-nil_parts (x ∷ xs) ys h = cc

load_ok :
    (client : Client) (cs : List ConnData) (w : Wanted)
    → collect_configs cs start ≡ done w
    → (load client cs w).response.status ≡ 200
    → IsApart cs
    → All (IsGiven (load client cs w).to_load) cs × IsLoaded client (load client cs w).to_load
unfolding load delete_all
load_ok client cs w t ok apart =
    let m = delete_all (refused_secrets client.load_shared w.secrets) w.to_load in
    let (loaded, refused, errs) =
      respond_ok (not_loaded client m) (refused_secrets client.load_shared w.secrets)
        (w.errs ++ load_errors client m) ok in
    let (no_errs, no_list_errs) = append-nil_parts w.errs (load_errors client m) errs in
    let same : m ≡ w.to_load = ap (λ ks. delete_all ks w.to_load) refused in
    let collected = collect_configs-Collected cs start w t no_errs apart in
    (rw same collected.added, not_loaded-IsLoaded client m loaded no_list_errs)

-- For configurations without a specification's name twice, a reply with status 200 means that each
-- was translated and given to the daemon under its specification's name, as translate made it, and
-- that the daemon took the configurations or lists all of their names.
pub reload_config_ok :
    (client : Client) (cs : List ConnData) (r : Reload)
    → reload_config client (some (some cs)) ≡ done r
    → r.response.status ≡ 200
    → IsApart cs
    → All (IsGiven r.to_load) cs × IsLoaded client r.to_load
unfolding reload_config
reload_config_ok client cs r h ok apart = elim (Try-cases (collect_configs cs start)) [
  | inl (w, t) ↦
      let loaded : done (load client cs w) ≡ done r = rw (reload_config, t) at h in
      let same : load client cs w ≡ r = cc in
      rw (sym same) (load_ok client cs w t (rw (sym same) at ok) apart)
  | inr (inl (err, t)) ↦ cc (rw (reload_config, t) at h)
  | inr (inr t) ↦ cc (rw (reload_config, t) at h)
]
