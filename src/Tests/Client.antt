-- ===== src/Tests/Client.antt =====
-- The theorems on the client's model, at a small drawing.
use mathlib.Core.Option
use rmp_ros2_control.Prelude.{◌+◌, true, false, ◌≡◌, none, some, List, [], ◌∷◌, codes}
use rmp_ros2_control.Prelude.Int.{ℤ, pos}
use rmp_ros2_control.Float.Fixed.{fixed}
use rmp_ros2_control.DrawingStore.{Kind, Params, Stroke}
use rmp_ros2_control.SurfaceModel.{ClientControl, ClientDisplay, SurfaceModel, new_model}
use rmp_ros2_control.SurfaceModel.Requests.{requeue_controls, snapshot, payload}
use rmp_ros2_control.SurfaceModel.Steps.{
  ViewOp, sets_pointer, sets_pen, executes, stops, loads, view_run,
}
use rmp_ros2_control.SurfaceModel.Queue.{requeue-snapshot}
use rmp_ros2_control.SurfaceModel.Contents.{
  Subsequence, stroke_points, payload_points, payload-Subsequence,
}
use rmp_ros2_control.Tests.{config}

abbrev shown : ClientDisplay ℤ
shown = record {
  config = record {
    extent = config.extent;
    duplicate_threshold = config.duplicate_threshold;
    resample_spacing = config.resample_spacing;
    max_samples = 100;
    plane_offset = (pos 0, pos 0);
    plane_yaw_deg = pos 0;
  };
  live = false;
  executing = false;
  preview = none;
}

abbrev line_from : ℤ → ℤ → Stroke ℤ
line_from a b = record {
  kind = Kind.line;
  points = (a, pos 0) ∷ (b, pos 0) ∷ [];
  params = Params.two_points (a, pos 0) (b, pos 0);
  chained = false;
}

abbrev chained_line : Stroke ℤ
chained_line = record (line_from (pos 10_000) (pos 20_000)) { chained = true }

abbrev drawn : List (Stroke ℤ)
drawn = line_from (pos 0) (pos 10_000) ∷ chained_line ∷ line_from (pos 0) (pos 5000) ∷ []

abbrev waiting : SurfaceModel ℤ
waiting = record new_model {
  display = some shown;
  store = some (record { max_samples = 100; strokes = drawn; sample_count = 6 });
  controls = ClientControl.park ∷ [];
}

abbrev meanwhile : List (ViewOp ℤ)
meanwhile =
    sets_pointer (pos 1_000_000, pos 2_000_000)
    ∷ sets_pen (pos 0) true
    ∷ executes (pos 0)
    ∷ loads (pos 0) (codes "house") none true
    ∷ stops
    ∷ []

requeue-snapshot_example :
    Option.map
      (requeue_controls (snapshot waiting).0.controls)
      (view_run meanwhile (snapshot waiting).1)
    ≡ view_run meanwhile (record waiting { seq = waiting.seq + 1 })
requeue-snapshot_example = requeue-snapshot meanwhile waiting

payload-Subsequence_example :
    Subsequence (payload_points (payload (pos 500) drawn)) (stroke_points drawn)
payload-Subsequence_example = payload-Subsequence (pos 500) drawn
