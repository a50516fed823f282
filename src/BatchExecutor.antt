-- ===== src/BatchExecutor.antt =====
-- batch_executor.py: the queue of the batch thread, its loop, and the calls that it and the
-- coordination thread make of the controller and the sender. The two threads interleave: each step of
-- the batch thread is between two points where the other thread can act. ROS services, the sender
-- and the planner are a parameter that answers a call, given the calls before it.
pub mod Answers
pub mod Stops
use rmp_ros2_control.Prelude.{
  ℕ, suc, Bool, true, false, ◌&&◌, Option, none, some, List, [], ◌∷◌, ◌++◌, Text, ◌==◌,
  if◌then◌else◌,
}
use rmp_ros2_control.Prelude.Int.{ℤ, pos, negsuc}
use rmp_ros2_control.Float.{Float, lit}
use rmp_ros2_control.Recipe.{RecipeDoc, RecipeSegment, Defaults, or_default}
use rmp_ros2_control.Recipe.Waypoints.{over_defaults}

-- An entry of the queue; the sentinel of `shutdown` is the `none` of the queue.
pub data Job (F : Type 0) : Type 0 where
  execute_job : RecipeDoc F → Job F
  park_job : List F → F → F → Job F

-- The arguments of `run_streamed` that `_execute_structure` reads from the structure. The
-- coordinates are passed on as they are, in lower case. The other arguments are the defaults of
-- `parse_args`.
pub record SenderArgs (F : Type 0) : Type 0 where
  pub eef_step : F
  pub scale : F
  pub rotate : F
  pub plane_rotate : F
  pub structure : RecipeDoc F
  pub coords : Option Text
  pub defaults : Defaults F
  pub segments : List (RecipeSegment F)
  pub goal_seconds : F
  pub max_inflight : ℕ

pub data Trigger : Type 0 where
  stop_trigger reset_trigger : Trigger

pub data BatchCall (F : Type 0) : Type 0 where
  -- from the coordination thread
  trigger : Trigger → BatchCall F
  -- `_clear_latch`, from the batch thread
  clear_latch : BatchCall F
  run_streamed : SenderArgs F → BatchCall F
  ptp_to_joints : List F → F → F → BatchCall F

-- How a service answers: it is not there, it does not answer, or it does.
pub data Reply : Type 0 where
  unavailable no_response : Reply
  answered : Bool → Reply

pub data Message : Type 0 where
  blank raised empty_structure move_unavailable move_failed : Message
  exit_code : ℤ → Message

pub data BatchEvent : Type 0 where
  result : Bool → Message → BatchEvent
  refused_reset : BatchEvent
  service_unavailable service_silent : Trigger → BatchEvent

-- Where the batch thread is: waiting for an item, holding one that it took, busy with it, past the
-- clearing of the latch, waiting for the sender or for the move to end, done with the item, no
-- longer busy and with the result to report, or ended.
pub data Phase (F : Type 0) : Type 0 where
  waiting sending moving ended : Phase F
  taken working cleared : Job F → Phase F
  wound_up finished : Bool → Message → Phase F

pub record BatchExecutor (F : Type 0) : Type 0 where
  pub work : List (Option (Job F))
  pub busy : Bool
  pub phase : Phase F
  pub calls : List (BatchCall F)
  pub events : List BatchEvent

-- What the components answer, given the calls before; `none` is an exception.
pub record Outside (F : Type 0) : Type 0 where
  pub reply : List (BatchCall F) → Trigger → Reply
  pub latch_service : List (BatchCall F) → Bool
  pub move_server : List (BatchCall F) → Bool
  pub ptp : List (BatchCall F) → Option Bool
  pub sender : List (BatchCall F) → Option ℤ
  pub seconds : F
  pub inflight : ℕ

abbrev pub new_executor : {F : Type 0} → BatchExecutor F
new_executor = record { work = []; busy = false; phase = waiting; calls = []; events = [] }

module _ {F : Type 0} where
  abbrev pub call : BatchCall F → BatchExecutor F → BatchExecutor F
  call c b = record b { calls = c ∷ b.calls }

  abbrev pub on_event : BatchEvent → BatchExecutor F → BatchExecutor F
  on_event e b = record b { events = e ∷ b.events }

  unfoldable pub execute : RecipeDoc F → BatchExecutor F → BatchExecutor F
  execute structure b = record b { work = b.work ++ some (execute_job structure) ∷ [] }

  unfoldable pub park : List F → F → F → BatchExecutor F → BatchExecutor F
  park ready_joints velocity acceleration b = record b {
    work = b.work ++ some (park_job ready_joints velocity acceleration) ∷ [];
  }

  unfoldable pub shutdown : BatchExecutor F → BatchExecutor F
  shutdown b = record b { work = b.work ++ none ∷ [] }

  -- the stop counts as made whatever the controller says of it
  abbrev pub triggered : Trigger → Reply → BatchExecutor F → BatchExecutor F × Bool
  triggered t unavailable b = (on_event (service_unavailable t) b, false)
  triggered t no_response b = (on_event (service_silent t) (call (trigger t) b), false)
  triggered stop_trigger (answered ok) b = (call (trigger stop_trigger) b, true)
  triggered reset_trigger (answered ok) b = (call (trigger reset_trigger) b, ok)

  -- _call_trigger
  unfoldable pub call_trigger : Outside F → Trigger → BatchExecutor F → BatchExecutor F × Bool
  call_trigger o t b = triggered t (o.reply b.calls t) b

  unfoldable pub stop : Outside F → BatchExecutor F → BatchExecutor F
  unfolding call_trigger
  stop o b = (call_trigger o stop_trigger b).0

  unfoldable pub reset : Outside F → BatchExecutor F → BatchExecutor F × Bool
  unfolding call_trigger
  reset o b =
      let asked = call_trigger o reset_trigger b in
      if b.busy then (on_event refused_reset b, false) else asked

abbrev moved : Option Bool → Bool × Message
moved none = (false, raised)
moved (some true) = (true, blank)
moved (some false) = (false, move_failed)

abbrev is_zero : ℤ → Bool
is_zero (pos n) = n == 0
is_zero (negsuc n) = false

abbrev sent : Option ℤ → Bool × Message
sent none = (false, raised)
sent (some code) = (is_zero code, exit_code code)

module _ {F : Type 0} ⦃fl : Float F⦄ where
  unfoldable pub sender_args : Outside F → RecipeDoc F → List (RecipeSegment F) → SenderArgs F
  sender_args o structure segments = record {
    eef_step = or_default structure.eef_step (lit 2 3);
    scale = or_default structure.scale (lit 10 1);
    rotate = or_default structure.rotate (lit 0 1);
    plane_rotate = or_default structure.plane_rotate (lit 0 1);
    structure = structure;
    coords = structure.coordinates;
    defaults = over_defaults structure.defaults;
    segments = segments;
    goal_seconds = o.seconds;
    max_inflight = o.inflight;
  }

  -- `_clear_latch`: nothing is asked where the service is not there
  abbrev pub clearing : Outside F → List (BatchCall F) → List (BatchCall F)
  clearing o calls = if o.latch_service calls then clear_latch ∷ calls else calls

  abbrev pub wind_up : Bool × Message → BatchExecutor F → BatchExecutor F
  wind_up (ok, message) b = record b { phase = wound_up ok message }

  -- `_execute_structure` and `_park` after the latch is cleared, up to the call that they wait for
  abbrev pub send :
      Outside F → RecipeDoc F → List (RecipeSegment F) → BatchExecutor F → BatchExecutor F
  send o structure [] b = wind_up (false, empty_structure) b
  send o structure (s ∷ segments) b =
      record (call (run_streamed (sender_args o structure (s ∷ segments))) b) { phase = sending }

  abbrev pub start : Outside F → Job F → BatchExecutor F → BatchExecutor F
  start o (execute_job structure) b = send o structure structure.segments b
  start o (park_job ready_joints velocity acceleration) b =
      if o.move_server b.calls
      then record (call (ptp_to_joints ready_joints velocity acceleration) b) { phase = moving }
      else wind_up (false, move_unavailable) b

  abbrev pub take_item : List (Option (Job F)) → BatchExecutor F → BatchExecutor F
  take_item [] b = b
  take_item (none ∷ work) b = record b { work = work; phase = ended }
  take_item (some job ∷ work) b = record b { work = work; phase = taken job }

  abbrev pub in_phase : Outside F → Phase F → BatchExecutor F → BatchExecutor F
  in_phase o waiting b = take_item b.work b
  in_phase o (taken job) b = record b { busy = true; phase = working job }
  in_phase o (working job) b = record b { calls = clearing o b.calls; phase = cleared job }
  in_phase o (cleared job) b = start o job b
  in_phase o sending b = wind_up (sent (o.sender b.calls)) b
  in_phase o moving b = wind_up (moved (o.ptp b.calls)) b
  in_phase o (wound_up ok message) b = record b { busy = false; phase = finished ok message }
  in_phase o (finished ok message) b = record (on_event (result ok message) b) { phase = waiting }
  in_phase o ended b = b

  -- a step of `_run`
  unfoldable pub thread_step : Outside F → BatchExecutor F → BatchExecutor F
  unfolding sender_args
  thread_step o b = in_phase o b.phase b

-- What happens to the executor: a call of the coordination thread, or a step of the batch thread.
pub data Happening (F : Type 0) : Type 0 where
  executes : RecipeDoc F → Happening F
  parks : List F → F → F → Happening F
  stops resets thread_steps shuts_down : Happening F

module _ {F : Type 0} ⦃fl : Float F⦄ where
  unfoldable pub happen : Outside F → Happening F → BatchExecutor F → BatchExecutor F
  unfolding execute park stop reset shutdown thread_step
  happen o (executes structure) b = execute structure b
  happen o (parks ready_joints velocity acceleration) b = park ready_joints velocity acceleration b
  happen o stops b = stop o b
  happen o resets b = (reset o b).0
  happen o thread_steps b = thread_step o b
  happen o shuts_down b = shutdown b

  unfoldable pub history : Outside F → List (Happening F) → BatchExecutor F → BatchExecutor F
  unfolding happen
  history o [] b = b
  history o (h ∷ hs) b = history o hs (happen o h b)
