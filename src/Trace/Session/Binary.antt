-- ===== src/Trace/Session/Binary.antt =====
-- Which binary a trace attaches to.
use memguard_agent.Base.{
  ◌≡◌, refl, sym, ap, ◌∙◌, subst, inl, inr, Bool, true, false, not, ◌&&◌, ◌||◌, Option, none, some,
  List, ◌++◌, if◌then◌else◌, Bool-cases, is_none, or_option, and_then, is_empty,
}
use memguard_agent.Base.Result.{Result, ok, err, map_err, ◌>>=◌, >>=-eq-ok}
use memguard_agent.Text.{Text, codes}
use memguard_agent.Trace.Agent.{prepare_process_seeds}
use memguard_agent.Trace.Session.{
  Resolvers, ok_flatten, single_name, with_binary_path, resolve_container, discover_ssl_binary,
  prepare,
}
use memguard_agent.Trace.{TraceConfig}

module _ {Seed : Type 0} (resolvers : Resolvers Seed) (cfg : TraceConfig Seed) where
  -- The path found for the one command name of a configuration that looks at TLS.
  abbrev pub discovered : Option Text
  discovered =
      if cfg.ssl
      then and_then (single_name cfg.comm) (λ c. ok_flatten (resolvers.binary_path_for_ssl c))
      else none

  abbrev pub chosen : Option (Text × Text) → Option Text
  chosen none = or_option cfg.binary_path discovered
  chosen (some (reference, path)) = some path

  abbrev at_path : Option Text → TraceConfig Seed
  at_path path = record cfg { binary_path = path }

  ok-injective : {A : Type 0} {a b : A} → ok a ≡ ok b → a ≡ b
  ok-injective e = cc

  prepare_process_seeds-ok :
      (given prepared : TraceConfig Seed)
      → prepare_process_seeds resolvers.seeds given ≡ ok prepared
      → prepared ≡ record given { process_seed_pids = prepared.process_seed_pids }
  unfolding prepare_process_seeds
  prepare_process_seeds-ok given prepared h =
      elim (Bool-cases (not given.process || not (is_empty given.process_seed_pids))) [
        | inl kept ↦ same_seeds (rw kept at h)
        | inr sought ↦ from_seeds (resolvers.seeds given) (rw sought at h)
      ]
    where
      same_seeds :
          ok given ≡ ok prepared
          → prepared ≡ record given { process_seed_pids = prepared.process_seed_pids }
      same_seeds e =
          let f : given ≡ prepared = ok-injective e in
          subst (λ p. p ≡ record given { process_seed_pids = p.process_seed_pids }) f refl

      from_seeds :
          (found : Result (List Seed))
          → (map_err (λ e. codes "failed to collect /proc snapshot: " ++ e) found >>= λ seeds.
              ok (record given { process_seed_pids = seeds }))
            ≡ ok prepared
          → prepared ≡ record given { process_seed_pids = prepared.process_seed_pids }
      from_seeds (ok seeds) e =
          let f : record given { process_seed_pids = seeds } ≡ prepared = ok-injective e in
          subst (λ p. p ≡ record given { process_seed_pids = p.process_seed_pids }) f refl
      from_seeds (err m) e = cc

  discover_ssl_binary-chosen :
      (resolved : Option (Text × Text))
      → discover_ssl_binary resolvers (
          with_binary_path cfg (elim resolved [ none ↦ none | some (reference, path) ↦ some path ]))
        ≡ at_path (chosen resolved)
  unfolding discover_ssl_binary
  discover_ssl_binary-chosen (some (reference, path)) = elim (Bool-cases cfg.ssl) [
    | inl on ↦ rw on refl
    | inr off ↦ rw off refl
  ]
  discover_ssl_binary-chosen none = pick cfg.ssl cfg.binary_path _ refl
    where
      pick :
          (ssl : Bool) (path found : Option Text)
          → cfg.binary_path ≡ path
          → (if ssl && is_none path then with_binary_path cfg found else cfg)
            ≡ at_path (or_option path (if ssl then found else none))
      pick true none none e = ap at_path e
      pick true none (some p) e = refl
      pick true (some p) found e = ap at_path e
      pick false none found e = ap at_path e
      pick false (some p) found e = ap at_path e

  -- A prepared configuration differs from the given one in its process seeds and its binary path at
  -- most. The path is the one a container reference stands for, else the given one, else the one found
  -- for the command name, where TLS is looked at and the name is a single one; else there is none.
  pub prepare-chosen :
      (prepared : TraceConfig Seed)
      → prepare resolvers cfg ≡ ok prepared
      → (resolved : Option (Text × Text)) × (resolvers.container_binary cfg.binary_path
          ≡ ok resolved)
        × (prepared ≡ record cfg {
          binary_path = chosen resolved;
          process_seed_pids = prepared.process_seed_pids;
        })
  unfolding prepare resolve_container
  prepare-chosen prepared h =
      let (there, e, h₁) = >>=-eq-ok (resolve_container resolvers cfg) _ h in
      let (resolved, e', h₂) = >>=-eq-ok (resolvers.container_binary cfg.binary_path) _ e in
      (
        resolved,
        e',
        subst
            (λ (d : TraceConfig Seed).
              prepared ≡ record d { process_seed_pids = prepared.process_seed_pids })
            (ap (discover_ssl_binary resolvers) (ok-injective (sym h₂))
              ∙ discover_ssl_binary-chosen resolved)
            (prepare_process_seeds-ok _ prepared h₁),
      )
