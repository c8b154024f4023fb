-- ===== src/Organizer/Apply.antt =====
-- internal/organizer/plan.go: ApplyPlan, which carries out a plan. The calls of filesystem.LinkObserved
-- are listed in the state; what they and the other system calls answer is an argument.
pub mod Linked
use aninode.Prelude.{
  ℕ, suc, ◌+◌, Bool, true, false, not, ◌&&◌, ◌||◌, if◌then◌else◌, ◌==◌, Text, Option, none, some,
  List, [], ◌∷◌,
}
use aninode.Organizer.{
  other_action, Action, link, existing, unmatched, conflict, excluded, PlanItem, within_root,
}

-- Result
pub record Result : Type 0 where
  pub scanned : ℕ
  pub linked : ℕ
  pub present : ℕ
  pub removed : ℕ
  pub left_out : ℕ
  pub unknown : ℕ
  pub conflicts : ℕ

-- The errors of ApplyPlan, but for those before its loop.
pub data ApplyError : Type 0 where
  ended escapes_roots escapes_source not_regular : ApplyError
  object_changed in_the_way : ApplyError
  cross_device link_failed : ApplyError
  unknown_action : Text → ApplyError

-- What filesystem.LinkObserved answers: a link made, or there before, syscall.EXDEV, fs.ErrExist, or
-- another error.
pub data Linking : Type 0 where
  made was_there other_device file_exists fails : Linking

-- What a round meets: ctx.Err(), realPathWithinRoot, os.Lstat of a regular file, filesystem.Identity, and
-- LinkObserved.
pub record Met : Type 0 where
  pub has_ended : Bool
  pub is_real : Bool
  pub is_regular : Bool
  pub identity : Option ℕ
  pub linking : Linking

-- A call of LinkObserved.
pub record LinkCall : Type 0 where
  pub source : Text
  pub destination : Text
  pub object : ℕ

pub record Applying : Type 0 where
  pub result : Result
  pub errs : List ApplyError
  pub calls : List LinkCall

unfoldable pub complain : ApplyError → Applying → Applying
complain e a = record a { errs = e ∷ a.errs }

unfoldable pub count_conflict : Result → Result
count_conflict r = record r { conflicts = suc r.conflicts }

unfoldable pub count_existing : Result → Result
count_existing r = record r { present = suc r.present }

-- Behind LinkObserved.
unfoldable pub count_linking : Linking → Applying → Applying
count_linking made a = record a { result = record a.result { linked = suc a.result.linked } }
count_linking was_there a = record a { result = count_existing a.result }
count_linking other_device a = complain cross_device a
count_linking file_exists a = complain in_the_way (record a { result = count_conflict a.result })
count_linking fails a = complain link_failed a

-- From LinkObserved on, for the object of the item.
unfoldable pub call_link : ℕ → PlanItem → Linking → Applying → Applying
call_link id item linking a = count_linking linking (record a {
  calls = record { source = item.source; destination = item.destination; object = id } ∷ a.calls;
})

-- !ok || currentID != item.SourceObject; an item without an object has the zero one, which no file has.
unfoldable pub check_object : Option ℕ → Option ℕ → PlanItem → Linking → Applying → Applying
check_object (some found) (some id) item linking a =
    if found == id
    then call_link id item linking a
    else complain object_changed (record a { result = count_conflict a.result })
check_object (some found) none item linking a =
    complain object_changed (record a { result = count_conflict a.result })
check_object none planned item linking a =
    complain object_changed (record a { result = count_conflict a.result })

-- The branch of ActionLink.
unfoldable pub apply_link : (source target : Text) → PlanItem → Met → Applying → Applying
apply_link source target item met a =
    if not (within_root source item.source) || not (within_root target item.destination)
    then complain escapes_roots a
    else if not met.is_real
    then complain escapes_source a
    else if not met.is_regular
    then complain not_regular a
    else check_object met.identity item.source_object item met.linking a

-- The switch.
unfoldable pub apply_action : Action → (source target : Text) → PlanItem → Met → Applying → Applying
apply_action existing source target item met a = record a { result = count_existing a.result }
apply_action unmatched source target item met a = record a {
  result = record a.result { unknown = suc a.result.unknown };
}
apply_action excluded source target item met a = record a {
  result = record a.result { left_out = suc a.result.left_out };
}
apply_action conflict source target item met a = record a { result = count_conflict a.result }
apply_action link source target item met a = apply_link source target item met a
apply_action (other_action name) source target item met a = complain (unknown_action name) a

-- A round behind the test of the context.
unfoldable pub apply_item : (source target : Text) → PlanItem → Met → Applying → Applying
apply_item source target item met a =
    apply_action item.action source target item met
      (record a { result = record a.result { scanned = suc a.result.scanned } })

-- The loop of ApplyPlan, over the items and what their rounds meet.
unfoldable pub apply_items : (source target : Text) → List (PlanItem × Met) → Applying → Applying
apply_items source target [] a = a
apply_items source target ((item, met) ∷ rest) a = elim met.has_ended [
  | true ↦ complain ended a
  | false ↦ apply_items source target rest (apply_item source target item met a)
]

abbrev pub no_result : Result
no_result = record {
  scanned = 0;
  linked = 0;
  present = 0;
  removed = 0;
  left_out = 0;
  unknown = 0;
  conflicts = 0;
}

-- ApplyPlan behind validate and filesystem.EnsureHardlinkDomain
unfoldable pub apply_plan : (source target : Text) → List (PlanItem × Met) → Applying
apply_plan source target items =
    apply_items source target items (record { result = no_result; errs = []; calls = [] })
