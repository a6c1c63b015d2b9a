-- ===== src/Policy/Bounds.antt =====
-- The bounds of the approval time, and what the risk of a command says.
use run_beacon.Base.{
  ℕ, List, [], ◌∷◌, ◌≤◌, ◌≡◌, refl, true, false, ◌||◌, ◌&&◌, not, Option, none, some, arith,
}
use run_beacon.Base.Text.{Text}
use run_beacon.Types.{PolicyRisk, JobAdapter}
use run_beacon.Policy.{
  Patterns, PolicyConfig, PolicyUpdate, PolicyFile, classify, risk_of, needs_approval,
  is_apple_signing, update, load, load_version, spread, default_config,
}

-- The time of a grant is at least a minute and at most a quarter of an hour.
pub IsTimed : PolicyConfig → Type 0
IsTimed config = (60 ≤ config.approval_ttl_seconds) × (config.approval_ttl_seconds ≤ 900)

-- Every update in turn, from the configuration that `load` reads.
pub updates : List PolicyUpdate → PolicyConfig → PolicyConfig
updates [] config = config
updates (input ∷ inputs) config = updates inputs (update input config)

load-IsTimed : (file : Option PolicyFile) → IsTimed (load file)
unfolding IsTimed load load_version
load-IsTimed none = (omega arith, omega arith)
load-IsTimed (some file) = ground (arith, load_version)

update-IsTimed :
    (input : PolicyUpdate) (config : PolicyConfig) → IsTimed config → IsTimed (update input config)
unfolding IsTimed update
update-IsTimed input config h = ground (arith, h)

-- Whatever the policy file holds and whatever updates follow, a grant of an approval lasts between 60
-- and 900 seconds.
pub approval_ttl_bounds :
    (file : Option PolicyFile) (inputs : List PolicyUpdate) → IsTimed (updates inputs (load file))
unfolding updates
approval_ttl_bounds file inputs = go inputs (load file) (load-IsTimed file)
  where
    go :
        (inputs : List PolicyUpdate) (config : PolicyConfig)
        → IsTimed config
        → IsTimed (updates inputs config)
    go [] config h = h
    go (input ∷ inputs) config h = go inputs (update input config) (update-IsTimed input config h)

-- A command is classified as standard exactly when no pattern matches it and the adapter is not
-- `apple-signing`.
pub classify-standard :
    (match : Patterns) (config : PolicyConfig) (command : Text) (adapter : JobAdapter)
    → let plain =
        not (match.destroys command || match.force_pushes command || match.removes_items command)
        && not (is_apple_signing adapter || match.signs command)
        && not (match.publishes command)
        && not (match.elevates (match.to_lower_case command)) in
      ((classify match config command adapter).risk ≡ PolicyRisk.standard → plain ≡ true)
      × (plain ≡ true → (classify match config command adapter).risk ≡ PolicyRisk.standard)
unfolding classify risk_of
classify-standard match config command adapter = ground (arith, risk_of)

-- With the default configuration, which is used where the policy file cannot be read, exactly the
-- commands that are not standard require approval; an update that names no risk keeps this.
pub default_requires_approval :
    (match : Patterns) (ttl : Option ℕ) (command : Text) (adapter : JobAdapter)
    → let input : PolicyUpdate = record {
      require_approval = record {
        privileged = none;
        credential = none;
        release = none;
        destructive = none;
      };
      approval_ttl_seconds = ttl;
    } in
      let decision = classify match (update input (load none)) command adapter in
      (decision.requires_approval ≡ false → decision.risk ≡ PolicyRisk.standard)
      × (decision.risk ≡ PolicyRisk.standard → decision.requires_approval ≡ false)
unfolding classify update load spread
default_requires_approval match ttl command adapter = by_risk (risk_of match command adapter).0
  where
    by_risk :
        (r : PolicyRisk)
        → (needs_approval default_config r ≡ false → r ≡ PolicyRisk.standard)
          × (r ≡ PolicyRisk.standard → needs_approval default_config r ≡ false)
    by_risk PolicyRisk.standard = (λ e. refl, λ e. refl)
    by_risk PolicyRisk.privileged = (λ e. cc, λ e. cc)
    by_risk PolicyRisk.credential = (λ e. cc, λ e. cc)
    by_risk PolicyRisk.release = (λ e. cc, λ e. cc)
    by_risk PolicyRisk.destructive = (λ e. cc, λ e. cc)
