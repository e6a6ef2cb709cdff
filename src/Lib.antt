-- ===== src/Lib.antt =====
-- A model of the game server: its C++ code as functions, and what that code guarantees.
--
-- Clients connect over TCP. A session (net/session.cpp) cuts the byte stream into frames and gives
-- each payload to the game worker or to the worker of its field. A field keeps its entities in a
-- grid (field/AoiWorld.cpp) whose events say which players see what; field/FieldAoiSystem.cpp keeps,
-- from these events, the list of watchers that broadcasts go to. Users whose state changed are
-- collected (storage/DirtyHub.h) and written back in batches by a worker thread
-- (storage/DBWorker.cpp, storage/StorageSystem.cpp).
--
-- Aoi models field/AoiWorld.{h,cpp} (Types, Sectors, World) and field/FieldAoiSystem.{h,cpp}
-- (System): add_entity, move_entity, remove_entity and update_player_aoi carry the names of the
-- methods, a method that calls the send callback returns its calls in order, and
-- rebuild_player_subscriptions is split where the source has its loops. Grid, View, Told and
-- Sightings say what the lists mean, and Reach follows a field over any run of operations. A loop
-- over a square of sectors is a list of coordinates; there is no fuel.
--
-- Net models net/session.cpp: Session has the routing (route), the read loop (read_frames), on_read,
-- send_payload, on_send_async and flush_send_queue. The read loop runs on fuel, a turn for each byte
-- of the buffer, and every turn moves on by at least the header, which is not empty. worker/codec.h
-- is not in the repository and the verifiers are generated by flatbuffers, so Codec states them as
-- parameters, with the laws of the frame header that the code relies on.
--
-- Storage models the dirty set, the database worker (try_push, the turns of run) and StorageSystem
-- (on_timer, the connections, handle_db_job, the real-time writes). What Redis and MySQL answer is a
-- parameter; Redis has the parsing and the pipeline of storage/redis/redisUserCache.cpp, over
-- hiredis as a parameter, Json and Statement the text of a batch and the prepared statements of
-- storage/DB, over the client of MySQL as a parameter, Clients puts both under StorageSystem, and
-- Lifecycle starts and stops it. Reading is a reader of the text, written for the proofs.
-- push_batches runs on fuel, a turn for each user, and the batch size is at least 1; skip_results on
-- the number of results that the client still holds, and the wait for the thread on a turn for each
-- queued job. A mutex makes its section one step; steps of different threads interleave freely.
--
-- Game models game/Player.h and game/PlayerManager.cpp: the setters of the points, and the maps from
-- ids to players and from sessions to ids. Monster models field/monster: World the components, the
-- attack of a player and the spawn system, Combat the attack of a monster, Movement the walk,
-- Observe what the policy network sees and the choice from its answer (RlObs16.h), Ai and Turn what
-- AISystem.cpp thinks and tells, Random the numbers of core/core_types.h. The answer of the network
-- is a parameter. A call of `get` on an absent component has no result; calls of the environment are
-- returned in order.
--
-- Field models worker/fieldWorker.cpp: Types the state of a field, Sending what it tells, Players
-- the input and the walk of the players, their arrival and departure, Monsters the callbacks that
-- the systems of the monsters run on, Worker the constructor, the messages and the clock. An
-- operation gives the field after it and what it sent, and has no result where the code throws. Kept
-- says what every operation keeps, Returns that none throws, Life puts them in any order; Places,
-- Courses and Roaming say where the players are, Presence in any order. The loops of update_world
-- have the bounds of the source, 5 and 3 turns. A Player object is shared with the player manager: a
-- field holds the ids, and the objects by id.
--
-- Handlers models core/handlers (Logic): a handler gives the lobby after it and what it sends or
-- hands to a field. Registry in Net is net/sessionManager.h, whose weak pointers are looked up with
-- what lives; Server in Net is net/tcp_server.cpp, with the closing of sessions. Dispatching joins
-- the table of the handlers with core/dispatcher.cpp.
--
-- Server joins the handlers with the field workers: serve_enter_field and serve_skill_cmd are
-- handlers with the calls they make on a field and on its queue, send_to_field_worker and
-- send_move_to_fieldworker the end of worker/fieldWorker.cpp. A player object is put into the field
-- with the value that the player manager holds.
--
-- Worker models worker/worker.cpp (Loop), worker/workerManager.cpp and field/FieldManager.cpp
-- (Registry), the game worker and the stop of all workers (Hub), and core/dispatcher.cpp
-- (Dispatcher). The thread of a worker moves by steps, which interleave with the calls of the
-- others.
--
-- Prelude holds what the parts share: tests, lists, maps, integers and the floating-point
-- arithmetic, which is a parameter without laws. Examples applies the theorems to small inputs.
--
-- A number of C++ that only serves as a key or a count is a natural number; coordinates are integers
-- without bound. Threads, sockets, timers and the third-party clients are not modelled. Neither are
-- the generated flatbuffers code, the session of ONNX that answers for the policy, the timed threads
-- of core/thread_pool.cpp, the reading of the configuration and the training scripts. How a double
-- is printed is a parameter, and so is what Redis, MySQL and uv answer.
mod Prelude
pub mod Aoi
pub mod Net
pub mod Storage
pub mod Game
pub mod Monster
pub mod Worker
pub mod Server
pub mod Field
pub mod Handlers
mod Examples
