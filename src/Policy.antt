-- ===== src/Policy.antt =====
-- The policy of src/lifecycle/PolicyEngine.ts: the risk of a command, whether it needs approval, and
-- the configuration. The tests of JavaScript's regular expressions on the command, and its
-- `toLowerCase`, are parameters. `Math.trunc` and a negative time are outside: the time of an update
-- is a natural number, or `none` where it is missing or not finite. The file is its parsed value,
-- `none` where it cannot be read or parsed; `Number(value) || 300` of a time is its value, 0 where it
-- is not a number.
pub mod Bounds
use run_beacon.Base.{
  ℕ, min, max, Bool, true, false, ◌&&◌, ◌||◌, not, Option, none, some, ◌==◌, if◌then◌else◌, get_or,
}
use run_beacon.Base.Text.{Text, ascii}
use run_beacon.Types.{PolicyRisk, JobAdapter}

-- Which of the regular expressions of `classify` match a text.
pub record Patterns : Type 0 where
  pub destroys : Text → Bool
  pub force_pushes : Text → Bool
  pub removes_items : Text → Bool
  pub signs : Text → Bool
  pub publishes : Text → Bool
  pub elevates : Text → Bool
  pub to_lower_case : Text → Text

pub record Approvals : Type 0 where
  pub privileged : Bool
  pub credential : Bool
  pub release : Bool
  pub destructive : Bool

pub record PolicyConfig : Type 0 where
  pub require_approval : Approvals
  pub approval_ttl_seconds : ℕ

pub record PolicyDecision : Type 0 where
  pub risk : PolicyRisk
  pub requires_approval : Bool
  pub reason : Text

-- `Partial<PolicyConfig['requireApproval']>`
pub record SomeApprovals : Type 0 where
  pub privileged : Option Bool
  pub credential : Option Bool
  pub release : Option Bool
  pub destructive : Option Bool

pub record PolicyUpdate : Type 0 where
  pub require_approval : SomeApprovals
  pub approval_ttl_seconds : Option ℕ

abbrev pub default_config : PolicyConfig
default_config = record {
  require_approval = record {
    privileged = true;
    credential = true;
    release = true;
    destructive = true;
  };
  approval_ttl_seconds = 300;
}

abbrev pub is_apple_signing : JobAdapter → Bool
is_apple_signing JobAdapter.apple_signing = true
is_apple_signing _ = false

-- The risk and the reason of `classify`.
pub risk_of : Patterns → Text → JobAdapter → PolicyRisk × Text
risk_of match command adapter =
    if match.destroys command || match.force_pushes command || match.removes_items command
    then (PolicyRisk.destructive, ascii "destructive or force operation")
    else if is_apple_signing adapter || match.signs command
    then (PolicyRisk.credential, ascii "private signing identity or Keychain use")
    else if match.publishes command
    then (PolicyRisk.release, ascii "external publication")
    else if match.elevates (match.to_lower_case command)
    then (PolicyRisk.privileged, ascii "privileged execution context")
    else (PolicyRisk.standard, ascii "ordinary task")

-- `risk !== 'standard' && requireApproval[risk] !== false`
abbrev pub needs_approval : PolicyConfig → PolicyRisk → Bool
needs_approval config PolicyRisk.standard = false
needs_approval config PolicyRisk.privileged = config.require_approval.privileged
needs_approval config PolicyRisk.credential = config.require_approval.credential
needs_approval config PolicyRisk.release = config.require_approval.release
needs_approval config PolicyRisk.destructive = config.require_approval.destructive

pub classify : Patterns → PolicyConfig → Text → JobAdapter → PolicyDecision
unfolding risk_of
classify match config command adapter =
    let (risk, reason) = risk_of match command adapter in
    record { risk = risk; requires_approval = needs_approval config risk; reason = reason }

-- The spread of a partial record over a full one.
spread : SomeApprovals → Approvals → Approvals
spread some_approvals approvals = record {
  privileged = get_or some_approvals.privileged approvals.privileged;
  credential = get_or some_approvals.credential approvals.credential;
  release = get_or some_approvals.release approvals.release;
  destructive = get_or some_approvals.destructive approvals.destructive;
}

abbrev pub clamp_ttl : ℕ → ℕ
clamp_ttl seconds = max 60 (min 900 seconds)

abbrev clamp_update : PolicyConfig → Option ℕ → ℕ
clamp_update config none = config.approval_ttl_seconds
clamp_update config (some seconds) = clamp_ttl seconds

-- `update`; the new configuration is also what is saved.
unfoldable pub update : PolicyUpdate → PolicyConfig → PolicyConfig
unfolding spread
update input config = record {
  approval_ttl_seconds = clamp_update config input.approval_ttl_seconds;
  require_approval = spread input.require_approval config.require_approval;
}

-- What `load` reads of the file: the version, `requireApproval` where it is there, and the time.
pub record PolicyFile : Type 0 where
  pub version : ℕ
  pub require_approval : Option SomeApprovals
  pub approval_ttl_seconds : ℕ

load_version : PolicyFile → Option PolicyConfig
unfolding spread
load_version file = elim file.require_approval [
  | none ↦ none
  | some approvals ↦
      if file.version == 1
      then some (record {
        approval_ttl_seconds =
            clamp_ttl (if file.approval_ttl_seconds == 0 then 300 else file.approval_ttl_seconds);
        require_approval = spread approvals default_config.require_approval;
      })
      else none
]

abbrev load_file : Option PolicyFile → Option PolicyConfig
load_file none = none
load_file (some file) = load_version file

-- `load`
unfoldable pub load : Option PolicyFile → PolicyConfig
unfolding load_version
load file = get_or (load_file file) default_config
