-- ===== src/Domain.antt =====
-- src/domain.ts: the records that the scheduler and the repositories exchange.
--
-- A timestamp is a string there. It is kept as what `new Date(value)` reads in it: an instant, or
-- nothing. An absent optional field is `none`; so is the empty string where the code only asks
-- whether the field is truthy. Minutes are whole numbers that are not negative.
use scheduleos.Base.{ℕ, String, Bool, List, Option}

-- Milliseconds since the earliest instant that a `Date` can hold, which is a UTC midnight
-- 100,000,000 days before the epoch.
abbrev pub Instant : Type 0
Instant = ℕ

pub data Timestamp : Type 0 where
  iso : Instant → Timestamp
  malformed : Timestamp

-- A time of day is a string too, kept as what `value.split(":")` and `Number` read in it: two whole
-- numbers, or something else.
pub data TimeText : Type 0 where
  clock : (hour minute : ℕ) → TimeText
  malformed : TimeText

pub data Priority : Type 0 where
  urgent high medium low : Priority

pub data SchedulingMode : Type 0 where
  flexible fixed deadline_driven habit routine meeting reminder do_not_schedule manually_scheduled :
      SchedulingMode

pub data TaskConfidence : Type 0 where
  confirmed inferred_high inferred_medium inferred_low unknown : TaskConfidence

pub data Daypart : Type 0 where
  morning afternoon evening : Daypart

pub record Scope : Type 0 where
  pub tenant_id : String
  pub workspace_id : String
  pub user_id : String

pub record SchedulingTask : Type 0 where
  pub id : String
  pub scope : Scope
  pub owner_id : String
  pub title : String
  pub priority : Priority
  pub estimated_duration_minutes : ℕ
  pub remaining_duration_minutes : ℕ
  pub scheduling_mode : SchedulingMode
  pub splittable : Bool
  pub scheduling_eligible : Bool
  pub blocked : Bool
  pub waiting : Bool
  pub confidence : TaskConfidence
  pub created_at : Timestamp
  pub updated_at : Timestamp
  pub deadline : Option Timestamp
  pub earliest_start : Option Timestamp
  pub latest_finish : Option Timestamp
  pub minimum_block_minutes : Option ℕ
  pub maximum_block_minutes : Option ℕ
  pub preferred_block_minutes : Option ℕ
  pub preferred_dayparts : List Daypart
  pub dependencies : List String

pub data CalendarStatus : Type 0 where
  confirmed tentative cancelled : CalendarStatus

pub data BusyStatus : Type 0 where
  busy free out_of_office tentative_busy unknown : BusyStatus

pub data PrivacyLevel : Type 0 where
  public private confidential busy_only unknown : PrivacyLevel

pub record CalendarEvent : Type 0 where
  pub id : String
  pub scope : Scope
  pub calendar_id : String
  pub title : String
  pub start : Timestamp
  pub end : Timestamp
  pub timezone : String
  pub all_day : Bool
  pub status : CalendarStatus
  pub busy_status : BusyStatus
  pub movable : Bool
  pub locked : Bool
  pub privacy_level : PrivacyLevel
  pub version : ℕ
  pub buffer_before_minutes : Option ℕ
  pub buffer_after_minutes : Option ℕ
  pub travel_before_minutes : Option ℕ
  pub travel_after_minutes : Option ℕ

pub record BreakWindow : Type 0 where
  pub label : String
  pub start_time : TimeText
  pub end_time : TimeText

pub record WorkingHours : Type 0 where
  pub user_id : String
  pub timezone : String
  pub days_of_week : List ℕ
  pub start_time : TimeText
  pub end_time : TimeText
  pub break_windows : List BreakWindow

pub data BlockStatus : Type 0 where
  proposed accepted locked completed missed : BlockStatus

pub record TimeBlock : Type 0 where
  pub id : String
  pub task_id : String
  pub scope : Scope
  pub start : Timestamp
  pub end : Timestamp
  pub status : BlockStatus
  pub locked : Bool

pub data WarningCode : Type 0 where
  over_capacity deadline_at_risk no_contiguous_slot locked_block_limits_plan : WarningCode

-- `available_ms` is `availableMinutes`, counted in milliseconds. The message is left out.
pub record CapacityWarning : Type 0 where
  pub code : WarningCode
  pub task_id : Option String
  pub available_ms : ℕ
  pub required_minutes : ℕ

pub data ExplanationType : Type 0 where
  task_placed task_unscheduled block_preserved capacity_exceeded : ExplanationType

-- The message and the evidence, which repeat the other values of the plan as text, are left out.
pub record SchedulingExplanation : Type 0 where
  pub type : ExplanationType
  pub task_id : Option String
  pub block_id : Option String

pub data PlanStatus : Type 0 where
  proposed accepted rejected failed : PlanStatus

-- The reasons that the scheduler writes, one constructor for each string.
pub data Reason : Type 0 where
  wrong_scope scheduling_ineligible blocked waiting do_not_schedule invalid_duration
        missing_deadline invalid_minimum_block deadline_at_risk no_contiguous_slot :
      Reason

pub record UnscheduledTask : Type 0 where
  pub task_id : String
  pub reason : Reason

pub record SchedulePlan : Type 0 where
  pub id : String
  pub scope : Scope
  pub range_start : Timestamp
  pub range_end : Timestamp
  pub timezone : String
  pub status : PlanStatus
  pub blocks : List TimeBlock
  pub unscheduled_tasks : List UnscheduledTask
  pub capacity_warnings : List CapacityWarning
  pub explanations : List SchedulingExplanation
