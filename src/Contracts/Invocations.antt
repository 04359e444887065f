-- ===== src/Contracts/Invocations.antt =====
-- ToolInvocation of packages/contracts/tools.py, the audit row of a tool call. Its times are left
-- out (they come from one clock, which does not go back); digits are those of ASCII.
use agent_workbench.Base.{
  ℕ, ◌-◌, ◌≡◌, refl, subst, String, Bool, true, false, ◌&&◌, ◌||◌, Option, none, some, List, [],
  ◌∷◌, leb, ltb, nat_eq, codes, strip, if◌then◌else◌,
}
use agent_workbench.Base.Json.{Fields}
use agent_workbench.Contracts.Events.{optional_strip}
use agent_workbench.Contracts.Fields.{is_id, within, optional_within}

pub data ToolInvocationStatus : Type 0 where
  pending running succeeded failed denied timeout cancelled : ToolInvocationStatus

abbrev pub status_text : ToolInvocationStatus → String
status_text ToolInvocationStatus.pending = "pending"
status_text ToolInvocationStatus.running = "running"
status_text ToolInvocationStatus.succeeded = "succeeded"
status_text ToolInvocationStatus.failed = "failed"
status_text ToolInvocationStatus.denied = "denied"
status_text ToolInvocationStatus.timeout = "timeout"
status_text ToolInvocationStatus.cancelled = "cancelled"

pub data AuthorizationDecision : Type 0 where
  allowed denied requires_approval : AuthorizationDecision

abbrev pub authorization_text : AuthorizationDecision → String
authorization_text AuthorizationDecision.allowed = "allowed"
authorization_text AuthorizationDecision.denied = "denied"
authorization_text AuthorizationDecision.requires_approval = "requires_approval"

pub record ToolInvocation : Type 0 where
  pub invocation_id : String
  pub run_id : String
  pub tenant_id : String
  pub tool_name : String
  pub tool_version : String
  pub input_hash : String
  pub redacted_input : Fields
  pub output_hash : Option String
  pub status : ToolInvocationStatus
  pub authorization_decision : AuthorizationDecision
  pub idempotency_key : Option String
  pub dry_run : Bool
  pub trace_id : Option String
  pub error : Option Fields

-- Runs of characters of one class, with so many dots between them.
dotted : (ℕ → Bool) → ℕ → Bool → List ℕ → Bool
dotted p dots seen [] = seen && nat_eq dots 0
dotted p dots seen (c ∷ cs) =
    let more = dotted p dots true cs in
    let next = dotted p (dots - 1) false cs in
    if p c then more else if seen && nat_eq c b'.' && ltb 0 dots then next else false

abbrev is_word_code : ℕ → Bool
is_word_code c = (leb b'a' c && leb c b'z') || (leb b'0' c && leb c b'9') || nat_eq c b'_'

abbrev is_digit_code : ℕ → Bool
is_digit_code c = leb b'0' c && leb c b'9'

-- pattern ^[a-z0-9_]+\.[a-z0-9_]+$
unfoldable pub is_tool_name : String → Bool
unfolding dotted
is_tool_name s = within 1 128 s && dotted is_word_code 1 false (codes s)

-- pattern ^\d+\.\d+\.\d+$
unfoldable pub is_version : String → Bool
unfolding dotted
is_version s = within 1 32 s && dotted is_digit_code 2 false (codes s)

abbrev optional_between : ℕ → Option String → Bool
optional_between high none = true
optional_between high (some s) = within 1 high s

-- `str_strip_whitespace=True`
unfoldable pub stripped_invocation : ToolInvocation → ToolInvocation
stripped_invocation i = record i {
  invocation_id = strip i.invocation_id;
  run_id = strip i.run_id;
  tenant_id = strip i.tenant_id;
  tool_name = strip i.tool_name;
  tool_version = strip i.tool_version;
  input_hash = strip i.input_hash;
  output_hash = optional_strip i.output_hash;
  idempotency_key = optional_strip i.idempotency_key;
  trace_id = optional_strip i.trace_id;
}

-- The field constraints
unfoldable pub is_valid_invocation : ToolInvocation → Bool
is_valid_invocation i =
    is_id i.invocation_id
    && is_id i.run_id
    && is_id i.tenant_id
    && is_tool_name i.tool_name
    && is_version i.tool_version
    && within 1 256 i.input_hash
    && optional_between 256 i.output_hash
    && optional_between 128 i.idempotency_key
    && optional_within 128 i.trace_id

-- `ToolInvocation(…)`: the row, or none for a ValidationError.
unfoldable pub make_invocation : ToolInvocation → Option ToolInvocation
unfolding stripped_invocation is_valid_invocation
make_invocation i =
    if is_valid_invocation (stripped_invocation i) then some (stripped_invocation i) else none

-- What validation leaves as it is.
abbrev pub Kept : ToolInvocation → ToolInvocation → Type 0
Kept i row =
    (row.status ≡ i.status)
    × (row.authorization_decision ≡ i.authorization_decision)
    × (row.redacted_input ≡ i.redacted_input)

pub make_invocation-Kept : (i row : ToolInvocation) → make_invocation i ≡ some row → Kept i row
unfolding make_invocation stripped_invocation
make_invocation-Kept i row = accepted (is_valid_invocation (stripped_invocation i))
  where
    accepted :
        (b : Bool) → (if b then some (stripped_invocation i) else none) ≡ some row → Kept i row
    accepted true h =
        let same : stripped_invocation i ≡ row = cc h in
        subst (Kept i) {y = row} same (refl, refl, refl)
    accepted false h = absurd (cc h)
