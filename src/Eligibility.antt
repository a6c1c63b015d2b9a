-- ===== src/Eligibility.antt =====
-- src/lifecycle/GitHubWorkflowEligibility.ts: whether GitHub will run a workflow for a pushed commit. A YAML
-- document is a value, with `none` for what is undefined; `minimatch` is a parameter; a round of the request for
-- the open pull requests is given with the times that the code reads and the attempts of its call of
-- `getJson`. A file that cannot be opened or parsed gives `none` for its document.
pub mod Decide
pub mod Patterns
pub mod Exact
mod Tests
use run_beacon.Base.{
  ℕ, zero, suc, ◌+◌, ◌-◌, min, max, List, [], ◌∷◌, ◌++◌, Bool, true, false, not, ◌&&◌, ◌||◌, Option,
  none, some, ltb, leb, ◌==◌, if◌then◌else◌, length, filter, any, is_empty, take, map, reverse,
}
use run_beacon.Base.Text.{Text, ascii, text_eq, trim}
use run_beacon.GitHubApi.{
  GitHubApiErrorCode, github_api_timeout, GitHubApiError, Attempt, Outcome, got, thrown, pending,
  get_json,
}

-- A YAML value; a scalar is a number or a Boolean.
mutual
  pub data Yaml : Type 0 where
    null scalar : Yaml
    text : Text → Yaml
    list : Items → Yaml
    object : Fields → Yaml

  pub data Items : Type 0 where
    nil : Items
    cons : Yaml → Items → Items

  pub data Fields : Type 0 where
    end : Fields
    field : Text → Yaml → Fields → Fields

pub record PullRequest : Type 0 where
  pub head_ref : Option Text
  pub head_sha : Option Text
  pub base_ref : Option Text

pub record WorkflowEvents : Type 0 where
  pub push : Option Yaml
  pub pull_request : Option Yaml
  pub pull_request_target : Option Yaml
  pub uncertain : Bool

pub data Reason : Type 0 where
  push pull_request no_workflows uncertain : Reason

pub data UnavailableCode : Type 0 where
  actions_monitoring_unavailable : UnavailableCode
  api : GitHubApiErrorCode → UnavailableCode

pub record WorkflowEligibility : Type 0 where
  pub eligible : Bool
  pub reason : Reason
  pub workflow_count : ℕ
  pub unavailable_code : Option UnavailableCode

-- A member of an object.
pub field_of : Text → Fields → Option Yaml
field_of name end = none
field_of name (field key value fields) =
    if text_eq key name then some value else field_of name fields

-- The texts among the items.
pub strings_of : Items → List Text
strings_of nil = []
strings_of (cons (text t) items) = t ∷ strings_of items
strings_of (cons item items) = strings_of items

pub count_items : Items → ℕ
count_items nil = 0
count_items (cons item items) = suc (count_items items)

-- `stringList`
pub string_list : Option Yaml → Option (List Text)
unfolding strings_of count_items
string_list (some (text t)) = some (t ∷ [])
string_list (some (list items)) =
    if length (strings_of items) == count_items items then some (strings_of items) else none
string_list other = none

abbrev pub no_events : WorkflowEvents
no_events = record {
  push = none;
  pull_request = none;
  pull_request_target = none;
  uncertain = true;
}

-- `normalized.has(name) ? null : undefined`
has_event : Text → List Text → Option Yaml
has_event name names = if any (λ (n : Text). text_eq (trim n) name) names then some null else none

-- `eventNames`
pub event_names : List Text → WorkflowEvents
unfolding has_event
event_names names = record {
  push = has_event (ascii "push") names;
  pull_request = has_event (ascii "pull_request") names;
  pull_request_target = has_event (ascii "pull_request_target") names;
  uncertain = false;
}

-- `normalizeEvents`
pub normalize_events : Option Yaml → WorkflowEvents
unfolding event_names strings_of field_of
normalize_events (some (text t)) = event_names (t ∷ [])
normalize_events (some (list items)) = event_names (strings_of items)
normalize_events (some (object fields)) = record {
  push = field_of (ascii "push") fields;
  pull_request = field_of (ascii "pull_request") fields;
  pull_request_target = field_of (ascii "pull_request_target") fields;
  uncertain = false;
}
normalize_events other = no_events

-- `document?.on`
pub on_of : Yaml → Option Yaml
unfolding field_of
on_of (object fields) = field_of (ascii "on") fields
on_of other = none

-- A file of the workflow directory: what `stat` says, the bytes of its text, and what the parser makes of it.
pub record WorkflowFile : Type 0 where
  pub name : Text
  pub is_file : Bool
  pub size : ℕ
  pub bytes : ℕ
  pub document : Option Yaml

abbrev pub max_workflow_bytes : ℕ
max_workflow_bytes = 1048576

read_document : Option Yaml → WorkflowEvents
unfolding normalize_events on_of
read_document none = no_events
read_document (some document) = normalize_events (on_of document)

pub read_file : WorkflowFile → WorkflowEvents
unfolding read_document
read_file file =
    if not file.is_file || ltb max_workflow_bytes file.size
    then no_events
    else if ltb max_workflow_bytes file.bytes
    then no_events
    else read_document file.document

lower_byte : ℕ → ℕ
lower_byte b = if leb b'A' b && leb b b'Z' then b + 32 else b

starts_with : Text → Text → Bool
starts_with prefix [] = is_empty prefix
starts_with [] (b ∷ bs) = true
starts_with (p ∷ ps) (b ∷ bs) = p == b && starts_with ps bs

-- `/\.ya?ml$/i`
pub is_yaml_name : Text → Bool
unfolding lower_byte starts_with
is_yaml_name name =
    let backwards = map lower_byte (reverse name) in
    starts_with (ascii "lmy.") backwards || starts_with (ascii "lmay.") backwards

-- What `readdir` gives.
pub data Directory : Type 0 where
  missing unreadable : Directory
  files : List WorkflowFile → Directory

-- `readWorkflowEvents`
pub read_workflow_events : Directory → List WorkflowEvents
unfolding is_yaml_name read_file
read_workflow_events missing = []
read_workflow_events unreadable = no_events ∷ []
read_workflow_events (files all) =
    map read_file (take 100 (filter (λ (f : WorkflowFile). is_yaml_name f.name) all))

-- The text without the `!` it may start with, and whether it does.
pub split_negation : Text → Bool × Text
split_negation [] = (false, [])
split_negation (b ∷ bs) = if b == b'!' then (true, bs) else (false, b ∷ bs)

module _ (minimatch : Text → Text → Bool) where
  -- The loop of `matchesOrderedPatterns`.
  pub match_from : Text → Bool → List Text → Bool
  unfolding split_negation
  match_from branch included [] = included
  match_from branch included (pattern ∷ patterns) =
      let (negative, candidate) = split_negation pattern in
      match_from branch
        (if not (is_empty candidate) && minimatch branch candidate then not negative else included)
        patterns

  -- `matchesOrderedPatterns`
  pub matches_ordered_patterns : Text → List Text → Bool
  unfolding match_from
  matches_ordered_patterns branch patterns = match_from branch false patterns

  branches_match : Text → Option (List Text) → Bool
  unfolding matches_ordered_patterns
  branches_match branch none = true
  branches_match branch (some patterns) = matches_ordered_patterns branch patterns

  is_ignored : Text → Option (List Text) → Bool
  is_ignored branch none = false
  is_ignored branch (some patterns) = any (λ (p : Text). minimatch branch p) patterns

  -- `branchMatchesEvent`
  pub branch_matches_event : Text → Option Yaml → Bool
  unfolding string_list field_of branches_match is_ignored
  branch_matches_event branch none = false
  branch_matches_event branch (some (object fields)) =
      branches_match branch (string_list (field_of (ascii "branches") fields))
      && not (is_ignored branch (string_list (field_of (ascii "branches-ignore") fields)))
  branch_matches_event branch (some other) = true

types_allow : Option (List Text) → Bool
types_allow none = true
types_allow (some types) = any (λ (t : Text). text_eq t (ascii "synchronize")) types

-- `supportsSynchronize`
pub supports_synchronize : Option Yaml → Bool
unfolding types_allow string_list field_of
supports_synchronize none = false
supports_synchronize (some (object fields)) =
    types_allow (string_list (field_of (ascii "types") fields))
supports_synchronize (some other) = true
