-- ===== src/Lib.antt =====
-- The replay and the rollout of rllib_async: the group that schedules rollout workers, the authoritative
-- episode store that they commit whole episodes to, and the view that a learner keeps of it by a
-- snapshot and deltas; with the training of a population of learners and the configuration of one.
--
-- How the parts interact. An `AsyncRolloutGroup` calls its idle runners, as far as its watermark allows,
-- and submits each episode that comes back to the store. A producer builds an `EpisodeEnvelope` and calls
-- `EpisodeStore.commit_episode`, which validates it by a codec, adds it, evicts the oldest episodes
-- until both capacities hold, and writes one transaction into a bounded journal. A learner loads
-- `get_snapshot` into a `ReferenceFastReplay`, then asks `get_delta` from its cursor and applies what
-- it gets. The journal is compacted, so an old cursor is answered by a demand for a new snapshot.
--
-- Files and code:
--   Episode    src/rllib_async/protocols/episodes.py: versions, payloads, `EpisodeEnvelope`, the codecs
--   Replay     src/rllib_async/protocols/replay.py: cursors, transactions, snapshots, deltas
--   Retention  the helpers on retention manifests at the end of the store in
--              src/rllib_async/replay/reference.py
--   Store      `EpisodeStore` of reference.py; a method has its name, its locals are records
--   View       `ReferenceFastReplay` of reference.py; View.Sampling its sampling methods
--   Fast       `FastReplay` of src/rllib_async/replay/fast.py: Fast.Index is `_build_view`, Fast.Target the
--              checks of a snapshot and of a delta, Fast.Writer the methods, Fast.Rebuild the two
--              critical sections of `_rebuild_loop`, Fast.System their interleavings, Fast.Sample the
--              sampling methods
--   Rollout    `AsyncRolloutGroup` of src/rllib_async/rollout/group.py, the IDs of episodes and the acceptance
--              of weights of src/rllib_async/rollout/episode_runner.py, and src/rllib_async/protocols/weights.py
--   Population src/rllib_async/runtime/population.py: the mutation of hyperparameters, the selection of donor
--              and target, and the reports of `PopulationAsyncSAC` with their steps
--   Config     `AsyncSACRuntimeConfig` of src/rllib_async/runtime/config.py; Config.Components the arguments that
--              src/rllib_async/runtime/controller.py makes of it
--   Sampling   `_sample_positions` of fast.py and its counterpart in reference.py
--   Dict       Python's ordered `dict`, `OrderedDict` and `Counter` with text keys
--   Fifo       the abstract policy: the longest suffix that fits both capacities
--   Common     shared names, exceptions as values, the lemmas on lists
--   Tests      runs at concrete inputs
--
-- State is passed explicitly. A method that can raise returns a `Result`; `commit_episode` returns its
-- answer beside the store that it leaves, since its counters stay raised after an exception.
-- Arguments that Python checks at run time are a `Value`: an integer, a negative one, or something
-- else. The messages of exceptions are not modelled. Every loop is by recursion on the list
-- that it takes from, so there is no fuel. Subtractions stop at 0; where the code subtracts the size of
-- an evicted episode from a total, the invariant of Store.Invariant makes the total the larger one.
--
-- The fast replay and its thread are one system whose steps are the critical sections. A writer's
-- call is one step, since a lock admits one writer and the thread never assigns what a writer reads.
-- Whether a thread can be started is an argument of `apply_delta`. The elapsed times are left out.
--
-- A method of the rollout group is an action on its state, which an exception leaves as it stands at the
-- raise. Calls that were submitted to Ray are numbered; what has become ready and with what answer is
-- an argument of `poll`. Submitting an episode call is taken to succeed; submitting a commit may fail.
-- The constructor of the group is modelled up to where it restores a checkpoint, which Rollout.Checkpoint
-- models apart. Times, returns and other floating-point windows are left out.
--
-- A population's report takes the answers of the members' actors as an argument. Floating-point numbers
-- are a type with the operations that the code applies and a total order.
--
-- Parameters: the text of a number, which candidate the generator chooses, the random generator, the
-- fingerprint of an envelope (SHA-256 of its pickled form; that an envelope can be pickled is taken for
-- granted), the serialiser of transitions, the random store generation. A codec is a record of its methods with one law: an envelope that it validates has a
-- positive number of transitions.
--
-- Not modelled: the readers' waits for a number of transitions, the learner and the environment loops
-- (torch, RLlib, Ray), the file formats of checkpoints, the actors' supervision, the launchers and
-- checkpoints of a population, and the graph networks.
pub mod Common
pub mod Dict
pub mod Fifo
pub mod Episode
pub mod Replay
pub mod Retention
pub mod Store
pub mod Fast
pub mod Sampling
pub mod View
pub mod Rollout
pub mod Population
pub mod Config
mod Tests
