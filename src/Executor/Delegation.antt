-- ===== src/Executor/Delegation.antt =====
-- packages/executor/src/delegate-handler.ts, the two endpoints of packages/executor/src/server.ts for
-- delegations, and packages/cli/src/delegation-poller.ts, which starts them.
--
-- The table of the queue is the list of its rows in the order of their insertion. A date is a number of
-- seconds. A process of the poller is the arguments it was started with; `System` has the queue, the file
-- of active delegations, the processes whose callback has not run, and all that were ever started.
-- A poll is one step: polls that overlap are left out.
use secure_openclaw_poc.Common.{
  ◌++◌, Bool, List, Option, String, Text, [], any, codes, if◌then◌else◌, false, filter, leb, map,
  none, not, some, suc, text_eq, true, zero, ℕ, ◌∷◌,
}
pub mod Polling
pub mod Counts
mod Tests

pub data Status : Type 0 where
  pending running completed failed : Status

pub record Row : Type 0 where
  pub id : Text
  pub created_at : ℕ
  pub status : Status
  pub task : Text
  pub worktree_name : Option Text
  pub allowed_tools : List Text
  pub max_budget_usd : Text
  pub timeout_seconds : ℕ
  pub agent_id : String
  pub session_id : String
  pub result_pr_url : Option Text
  pub completed_at : Option ℕ

-- What DelegateCodeParamsSchema gives, for parameters that fit it.
pub record DelegateParams : Type 0 where
  pub task : Text
  pub worktree_name : Option Text
  pub allowed_tools : List Text
  pub max_budget_usd : Text
  pub timeout_seconds : ℕ

abbrev pub is_pending : Row → Bool
is_pending r = elim r.status [ pending ↦ true | _ ↦ false ]

abbrev pub has_id : Text → List Row → Bool
has_id id rows = any (λ r. text_eq r.id id) rows

-- The statement of `enqueue`; `none` is a violated primary key.
unfoldable pub enqueue : List Row → Row → Option (List Row)
enqueue rows r = if has_id r.id rows then none else some (rows ++ r ∷ [])

unfoldable pub insert_by_date : Row → List Row → List Row
insert_by_date r [] = r ∷ []
insert_by_date r (s ∷ ss) =
    let later = s ∷ insert_by_date r ss in
    if leb r.created_at s.created_at then r ∷ s ∷ ss else later

unfoldable pub order_by_date : List Row → List Row
unfolding insert_by_date
order_by_date [] = []
order_by_date (r ∷ rs) = insert_by_date r (order_by_date rs)

unfoldable pub get_pending : List Row → List Row
unfolding order_by_date
get_pending rows = order_by_date (filter is_pending rows)

abbrev pub updated : (status : Status) (pr_url : Option Text) (now : ℕ) → Row → Row
updated status (some (c ∷ cs)) now r = record r {
  status = status;
  result_pr_url = some (c ∷ cs);
  completed_at = some now;
}
updated status _ now r = record r { status = status }

unfoldable pub update_status :
    List Row → (id : Text) (status : Status) (pr_url : Option Text) (now : ℕ) → List Row
update_status rows id status pr_url now =
    map (λ r. if text_eq r.id id then updated status pr_url now r else r) rows

-- The row of a call of the tool.
abbrev pub new_row : DelegateParams → (id : Text) (agent_id session_id : String) (now : ℕ) → Row
new_row p id agent_id session_id now = record {
  id = id;
  created_at = now;
  status = pending;
  task = p.task;
  worktree_name = p.worktree_name;
  allowed_tools = p.allowed_tools;
  max_budget_usd = p.max_budget_usd;
  timeout_seconds = p.timeout_seconds;
  agent_id = agent_id;
  session_id = session_id;
  result_pr_url = none;
  completed_at = none;
}

-- The handler: nothing for parameters that do not fit, and for a row that cannot be inserted.
unfoldable pub handle_delegate :
    List Row
    → (parsed : Option DelegateParams) → (id : Text) (agent_id session_id : String) (now : ℕ)
    → Option (List Row)
unfolding enqueue
handle_delegate rows none id agent_id session_id now = none
handle_delegate rows (some p) id agent_id session_id now =
    enqueue rows (new_row p id agent_id session_id now)

abbrev pub sanitized : (redact : Text → Text) → Row → Row
sanitized redact r = record r { task = redact r.task }

-- GET /pending-delegations.
unfoldable pub pending_delegations : (redact : Text → Text) → List Row → List Row
unfolding get_pending
pending_delegations redact rows = map (sanitized redact) (get_pending rows)

abbrev pub join_tools : List Text → Text
join_tools [] = []
join_tools (t ∷ []) = t
join_tools (t ∷ u ∷ us) = t ++ 44 ∷ join_tools (u ∷ us)

abbrev pub tools_args : List Text → List Text
tools_args [] = []
tools_args (t ∷ ts) = codes "--allowedTools" ∷ join_tools (t ∷ ts) ∷ []

abbrev pub worktree_args : Option Text → List Text
worktree_args (some (c ∷ cs)) = codes "--worktree" ∷ (c ∷ cs) ∷ []
worktree_args _ = []

-- The arguments of the command.
unfoldable pub spawn_args : Row → List Text
spawn_args r =
    (codes "-p"
      ∷ r.task
      ∷ codes "--output-format"
      ∷ codes "json"
      ∷ codes "--max-budget-usd"
      ∷ r.max_budget_usd
      ∷ [])
    ++ (tools_args r.allowed_tools ++ worktree_args r.worktree_name)

pub record Process : Type 0 where
  pub delegation_id : Text
  pub args : List Text

abbrev pub process_of : Row → Process
process_of r = record { delegation_id = r.id; args = spawn_args r }

pub record System : Type 0 where
  pub rows : List Row
  pub active : List Text
  pub processes : List Process
  pub started : List Process

-- What comes of the call of execFile: a process that the file of active delegations gets; none, of which
-- the callback is told; a process, though the file could not be written; or an exception.
pub data Spawn : Type 0 where
  tracked no_pid not_saved throws : Spawn

-- `spawnClaudeCode`, up to its end or its exception.
unfoldable pub spawn_claude_code : System → Row → Spawn → System
unfolding spawn_args
spawn_claude_code s r tracked = record s {
  active = s.active ++ r.id ∷ [];
  processes = s.processes ++ process_of r ∷ [];
  started = s.started ++ process_of r ∷ [];
}
spawn_claude_code s r no_pid = record s { processes = s.processes ++ process_of r ∷ [] }
spawn_claude_code s r not_saved = record s {
  processes = s.processes ++ process_of r ∷ [];
  started = s.started ++ process_of r ∷ [];
}
spawn_claude_code s r throws = s

abbrev pub goes_on : Spawn → Bool
goes_on tracked = true
goes_on no_pid = true
goes_on not_saved = false
goes_on throws = false

-- What a poll meets: whether the executor answers with its list, and what comes of each start.
pub record World : Type 0 where
  pub answers : Bool
  pub spawns : Row → Spawn

-- The loop of `poll`, which an exception ends.
unfoldable pub spawn_all : (spawns : Row → Spawn) → System → List Row → System
unfolding spawn_claude_code
spawn_all spawns s [] = s
spawn_all spawns s (r ∷ rs) =
    let next = spawn_claude_code s r (spawns r) in
    let rest = spawn_all spawns next rs in if goes_on (spawns r) then rest else next

-- `poll`. Without a good answer there is nothing to start.
unfoldable pub poll : (redact : Text → Text) → World → System → System
unfolding spawn_all pending_delegations
poll redact w s = if w.answers then spawn_all w.spawns s (pending_delegations redact s.rows) else s

abbrev pub removed : ℕ → List Process → List Process
removed n [] = []
removed zero (p ∷ ps) = ps
removed (suc n) (p ∷ ps) = p ∷ removed n ps

abbrev pub nth : ℕ → List Process → Option Process
nth n [] = none
nth zero (p ∷ ps) = some p
nth (suc n) (p ∷ ps) = nth n ps

abbrev pub end_status : (succeeded : Bool) → Status
end_status true = completed
end_status false = failed

abbrev pub ended : System → ℕ → (succeeded : Bool) (now : ℕ) → Option Process → System
ended s n succeeded now none = s
ended s n succeeded now (some p) = record s {
  rows = update_status s.rows p.delegation_id (end_status succeeded) none now;
  active = filter (λ id. not (text_eq id p.delegation_id)) s.active;
  processes = removed n s.processes;
}

-- A process ends: the callback, with the status that it reports.
unfoldable pub end_process : System → ℕ → (succeeded : Bool) (now : ℕ) → System
unfolding update_status
end_process s n succeeded now = ended s n succeeded now (nth n s.processes)
