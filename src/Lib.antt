-- ===== src/Lib.antt =====
-- The interactive draw plane of the Elfin robot cell: the bridge node that turns what a tablet
-- client draws into motion (src/rapidcode_draw_plane/rapidcode_draw_plane). The client samples a
-- pointer, captures strokes and sends controls; the bridge maps the pointer onto the board, keeps
-- the modes Batch, Executing and Live with a stop latch over them, and hands the motion to its
-- routes: the batch executor (recipes), the live streamer (hover) and the stroke streamer (drawing).
--
-- The files and the code they are about (paths below src/rapidcode_draw_plane/rapidcode_draw_plane):
--   Prelude, Prelude/*      shared names, Option as Python's exceptions, lists, integers
--   Float, Float/*          Python's float and `math` as an interface; an instance for the tests
--   Linalg, Linalg/*        linalg.py: mapping, clamps, bound verdicts, sampling, the split of a
--                           stroke at the edge of the working area
--   DrawingStore, .../*     drawing_store.py: the strokes of the current drawing
--   FileManager, .../*      file_manager.py: the recipe structure of a drawing and its file name
--   Dispatcher, .../*       dispatcher.py: the state machine of the bridge, one module for each
--                           group of handlers, and run/step for whatever reaches it in sequence
--   LiveStreamer, .../*     live_streamer.py: the waypoint queue, the tick of the live thread, its guard
--   SurfaceModel, .../*     surface_client.py: the model that the client's view and transport share
--   StrokeStreamer, .../*   stroke_streamer.py: the intake of the drawing route, its windows, a
--                           chain of goals from the first window to its end, and the session of the
--                           stroke thread that runs the chains
--   Recipe, Recipe/*        src/rapidcode_bringup/scripts/send_cartesian_path.py: the recipe of a
--                           drawing, its curves (B-splines, Catmull-Rom splines), its waypoints
--   RecipeLoader, .../*     recipe_loader.py: recipe files checked and anchored at the plane
--   BatchExecutor, .../*    batch_executor.py: the queue and the thread of the batch route, in steps
--                           between which the coordination thread can act
--   StreamedSender, .../*   src/rapidcode_bringup/scripts/send_cartesian_path_streamed.py: the cuts of
--                           a drawing into goals, their retiming, and the chain of goals
--   Bridge, Bridge/*        bridge.py and ui_comms.py: the session, the queues and the coordination
--                           loop that hands them to the dispatcher
--   Tests, Tests/*          the theorems at a concrete cell
--
-- How state and effects are modelled. A handler is a function from the state to the state; the
-- fields of the Python object are the fields of the record. Every call that leaves the dispatcher
-- (to a route, the display, the file system) is appended to the field `calls`, newest first, and an
-- `Environment` answers those that return a value, from the calls made before; nothing is assumed
-- of its answers. An exception that nothing catches is `none`. Where two threads share a component,
-- the steps between which the other can act are steps of the model: the parts of a tick of the
-- live route, a round of a chain of strokes, a phase of the batch thread. The bridge hands every event to the
-- dispatcher on one coordination thread, so that a run is a list of events.
--
-- Floats are a parameter: a type with the operations of `Float.Float`, of which no law is assumed
-- but where a theorem asks for the order laws of `Float.Order.IsOrdered`, which comparisons with
-- NaN satisfy as well. The tests take millionths in signed integers. Loops are structural
-- recursion over the list that the code walks. The loop of a chain of strokes waits: it walks a list of moments, each what the other thread does between two
-- rounds, and tells whether the chain came to its end within them; the session around it walks a
-- list of visits in the same way. The bisection of the knot span has the number of control points
-- and one more as its fuel, and halves a range that is no longer than that. The loops of the
-- streamed sender that wait for goals in flight walk the polls that fit before their deadline. The
-- loop of the bridge over the batches of inputs has one batch more than the queue has inputs as its
-- fuel, and stops at a batch that is not full.
--
-- Not modelled: ROS nodes, services, actions, threads and files (they are the environment), the
-- graphical client, the protocol's JSON text, the trajectory planning of MoveIt and Pilz, the C++
-- controller and hardware plugin, the command lines of the scripts, launch files and robot descriptions.
pub mod Prelude
pub mod Float
pub mod Linalg
pub mod DrawingStore
pub mod FileManager
pub mod Dispatcher
pub mod Recipe
pub mod RecipeLoader
pub mod BatchExecutor
pub mod StreamedSender
pub mod Bridge
pub mod LiveStreamer
pub mod SurfaceModel
pub mod StrokeStreamer
pub mod Tests
