-- ===== src/Alerts/Rules.antt =====
-- server/modules/alerts/alert.service.ts: the rules themselves, and where a team is notified.
-- `is_public` stands for `assertPublicUrl`, which asks DNS.
use zenstier.Prelude.{
  ℕ, ◌≤◌, ◌<◌, ◌≡◌, ◌≢◌, inl, inr, String, Bool, true, false, not, ◌&&◌, ◌||◌, Option, none, some,
  List, ◌∷◌, arith, ltb, ◌==◌, str_eq, eq_iff, is_some, or_else, if◌then◌else◌, update_many,
  delete_many, find_first, insert, All, Distinct, find_first-delete_many_all,
  find_first-delete_many_other, find_first-insert, find_first-update_many_apart,
  find_first-Distinct, find_first-holds, ap, ◌∙◌, All-insert, All-delete_many, All-update_many,
  Option-cases, Bool-cases,
}
use zenstier.Prelude.Text.{trim}
use zenstier.Alerts.{AlertMetric, AlertRule, AlertRuleState, is_offline_rule, at_state, state_of}

pub record RuleInput : Type 0 where
  pub name : String
  pub metric : AlertMetric
  pub threshold : ℕ
  pub for_minutes : ℕ
  pub webhook_url : Option String

pub data AlertError : Type 0 where
  name_required bad_threshold blocked_url rule_not_found : AlertError

pub data RuleAudit : Type 0 where
  rule_created rule_updated rule_deleted : (user_id team_id rule_id : ℕ) → RuleAudit

pub record RuleBook : Type 0 where
  pub rules : List AlertRule
  pub states : List AlertRuleState
  pub audit : List RuleAudit

pub data Outcome : Type 0 where
  done : RuleBook → Outcome
  failed : AlertError → Outcome

-- One hundred percent.
abbrev pub hundred : ℕ
hundred = 100000

-- A text that is there and not empty, as `if (x)` asks.
abbrev pub is_set : Option String → Bool
is_set none = false
is_set (some s) = not (str_eq s "")

-- `x?.trim() || null`.
abbrev pub trimmed : Option String → Option String
trimmed none = none
trimmed (some s) = if str_eq (trim s) "" then none else some (trim s)

abbrev pub by_id : (team_id rule_id : ℕ) → AlertRule → Bool
by_id team_id rule_id r = r.id == rule_id && r.team_id == team_id

abbrev pub bad_percent : RuleInput → Bool
bad_percent input =
    not (is_offline_rule input.metric) && (input.threshold == 0 || ltb hundred input.threshold)

abbrev pub new_rule : (new_id user_id team_id : ℕ) → RuleInput → AlertRule
new_rule new_id user_id team_id input = record {
  id = new_id;
  team_id = team_id;
  user_id = user_id;
  name = trim input.name;
  metric = input.metric;
  threshold = input.threshold;
  for_minutes = input.for_minutes;
  webhook_url = trimmed input.webhook_url;
  enabled = true;
}

module _ (is_public : String → Bool) where
  abbrev pub is_blocked : Option String → Bool
  is_blocked url = is_set url && not (is_public (or_else url ""))

  unfoldable pub create_rule : (new_id user_id team_id : ℕ) → RuleInput → RuleBook → Outcome
  create_rule new_id user_id team_id input book =
      let name = trim input.name in
      if str_eq name ""
      then failed name_required
      else if bad_percent input
      then failed bad_threshold
      else if is_blocked input.webhook_url
      then failed blocked_url
      else done (record book {
        rules = insert (new_rule new_id user_id team_id input) book.rules;
        audit = rule_created user_id team_id new_id ∷ book.audit;
      })

abbrev pub of_rule : ℕ → AlertRuleState → Bool
of_rule rule_id e = e.rule_id == rule_id

unfoldable pub set_rule_enabled : (user_id team_id rule_id : ℕ) → Bool → RuleBook → Outcome
set_rule_enabled user_id team_id rule_id enabled book =
    elim (find_first (by_id team_id rule_id) book.rules) [
      | none ↦ failed rule_not_found
      | some r ↦ done (record book {
        rules =
            update_many (λ (x : AlertRule). x.id == rule_id) (λ x. record x { enabled = enabled })
              book.rules;
        states = if enabled then book.states else delete_many (of_rule rule_id) book.states;
        audit = rule_updated user_id team_id rule_id ∷ book.audit;
      })
    ]

-- The states of a rule go with it.
pub delete_rule : (user_id team_id rule_id : ℕ) → RuleBook → Outcome
delete_rule user_id team_id rule_id book = elim (find_first (by_id team_id rule_id) book.rules) [
  | none ↦ failed rule_not_found
  | some r ↦ done (record book {
    rules = delete_many (λ (x : AlertRule). x.id == rule_id) book.rules;
    states = delete_many (of_rule rule_id) book.states;
    audit = rule_deleted user_id team_id rule_id ∷ book.audit;
  })
]

pub data Call : Type 0 where
  creates : (new_id : ℕ) → RuleInput → Call
  enables : (rule_id : ℕ) → Bool → Call
  deletes : (rule_id : ℕ) → Call

module _ (is_public : String → Bool) where
  unfoldable pub call : (user_id team_id : ℕ) → Call → RuleBook → Outcome
  unfolding create_rule set_rule_enabled delete_rule
  call user_id team_id (creates new_id input) book =
      create_rule is_public new_id user_id team_id input book
  call user_id team_id (enables rule_id enabled) book =
      set_rule_enabled user_id team_id rule_id enabled book
  call user_id team_id (deletes rule_id) book = delete_rule user_id team_id rule_id book

-- A name, and a threshold that is a percentage.
pub record IsSound (r : AlertRule) : Type 0 where
  pub named : r.name ≢ ""
  pub percent : is_offline_rule r.metric ≡ false → (0 < r.threshold) × (r.threshold ≤ hundred)

-- Every rule in the table has a name and, unless it watches for a device going offline, a threshold
-- of more than 0 and at most 100 percent; every call keeps this, whoever makes it.
pub call-IsSound :
    (is_public : String → Bool) (user_id team_id : ℕ) (c : Call) (book book' : RuleBook)
    → call is_public user_id team_id c book ≡ done book'
    → All IsSound book.rules
    → All IsSound book'.rules
unfolding call
call-IsSound is_public user_id team_id (creates new_id input) book book' e h =
    let made : book'.rules ≡ insert (new_rule new_id user_id team_id input) book.rules =
      ground arith in
    let new : IsSound (new_rule new_id user_id team_id input) = record {
      named = ground (arith, eq_iff (trim input.name) "");
      percent = λ m. ground arith;
    } in
    rw made (All-insert IsSound _ book.rules new h)
call-IsSound is_public user_id team_id (enables rule_id enabled) book book' e h =
    let made : book'.rules
        ≡ update_many (λ (x : AlertRule). x.id == rule_id) (λ x. record x { enabled = enabled })
            book.rules =
      ground arith in
    rw made (
      All-update_many IsSound (λ (x : AlertRule). x.id == rule_id)
        (λ (x : AlertRule). record x { enabled = enabled }) book.rules
        (λ x s. record { named = s.named; percent = s.percent }) h)
call-IsSound is_public user_id team_id (deletes rule_id) book book' e h =
    let made : book'.rules ≡ delete_many (λ (x : AlertRule). x.id == rule_id) book.rules =
      ground arith in
    rw made (All-delete_many IsSound (λ (x : AlertRule). x.id == rule_id) book.rules h)

-- Disabling a rule leaves it no state, and leaves the states of all other rules.
pub disable-state_of :
    (user_id team_id rule_id i j : ℕ) (book book' : RuleBook)
    → set_rule_enabled user_id team_id rule_id false book ≡ done book'
    → state_of i j book'.states ≡ (if i == rule_id then none else state_of i j book.states)
unfolding set_rule_enabled
disable-state_of user_id team_id rule_id i j book book' e =
    let made : book'.states ≡ delete_many (of_rule rule_id) book.states = ground arith in
    elim (Bool-cases (i == rule_id)) [
      | inl same ↦
          rw (same, made)
            (find_first-delete_many_all (at_state i j) (of_rule rule_id) book.states
              (λ x hit. ground arith))
      | inr other ↦
          rw (other, made)
            (find_first-delete_many_other (at_state i j) (of_rule rule_id) book.states
              (λ x hit. ground arith))
    ]

abbrev pub rule_by : ℕ → RuleBook → Option AlertRule
rule_by id book = find_first (λ (r : AlertRule). r.id == id) book.rules

outsider :
    (team_id rule_id id : ℕ) (book : RuleBook) (r : AlertRule)
    → Distinct (λ (x : AlertRule). x.id) book.rules
    → rule_by id book ≡ some r
    → r.team_id ≢ team_id
    → is_some (find_first (by_id team_id rule_id) book.rules) ≡ true
    → rule_id ≢ id
outsider team_id rule_id id book r u found foreign ok same =
    elim (Option-cases (find_first (by_id team_id rule_id) book.rules)) [
      | inl n ↦ ground arith
      | inr (x, e) ↦
          let hit = find_first-holds (by_id team_id rule_id) book.rules e in
          let r_x =
            find_first-Distinct (λ (y : AlertRule). y.id) id (by_id team_id rule_id) book.rules u
              found e (ground arith) in
          ground (arith, ap (λ (y : AlertRule). y.team_id) r_x)
    ]

-- A rule of another team is found as before after any call of a member of this one, ids being unique.
pub call-other_team :
    (is_public : String → Bool) (user_id team_id : ℕ) (c : Call) (book book' : RuleBook) (id : ℕ)
    (r : AlertRule)
    → call is_public user_id team_id c book ≡ done book'
    → Distinct (λ (x : AlertRule). x.id) book.rules
    → rule_by id book ≡ some r
    → r.team_id ≢ team_id
    → rule_by id book' ≡ some r
unfolding call
call-other_team is_public user_id team_id (creates new_id input) book book' id r e u found foreign =
    ground (
      arith,
      find_first-insert (λ (x : AlertRule). x.id == id) (new_rule new_id user_id team_id input)
          book.rules,
    )
call-other_team is_public user_id team_id (enables rule_id enabled) book book' id r e u found
      foreign =
    let p = λ (x : AlertRule). x.id == rule_id in
    let f = λ (x : AlertRule). record x { enabled = enabled } in
    let made : book'.rules ≡ update_many p f book.rules = ground arith in
    let apart = outsider team_id rule_id id book r u found foreign (ground arith) in
    rw made (
      find_first-update_many_apart (λ (x : AlertRule). x.id == id) p f book.rules
        (λ x hit. ground arith) (λ x hit. ground arith)
      ∙ found)
call-other_team is_public user_id team_id (deletes rule_id) book book' id r e u found foreign =
    let p = λ (x : AlertRule). x.id == rule_id in
    let made : book'.rules ≡ delete_many p book.rules = ground arith in
    let apart = outsider team_id rule_id id book r u found foreign (ground arith) in
    rw made (
      find_first-delete_many_other (λ (x : AlertRule). x.id == id) p book.rules
        (λ x hit. ground arith)
      ∙ found)
