-- ===== src/Lib.antt =====
-- A model of smart_router, a router of language-model requests, and the theorems about it. The
-- program sends a request to a small model first, checks the answer with a ladder of verifiers, carries
-- out the tool call that the answer proposes, and asks a larger model, the frontier, where that fails.
--
-- The parts, from the bottom:
--   Prelude       names shared by all: Boolean tests, lists, dictionaries (Prelude/Dict), texts as lists
--                 of code points (Prelude/Strings), abstract floats (Prelude/Floats), and code that
--                 changes a state and may raise (Prelude/Exec)
--   Schemas       the contracts of schemas/: verifier results and outcomes, routing decisions, traces,
--                 rules. A formatted message is kept as its template and its values (Schemas/Message)
--   Gateway       gateway/base.py (Base) and gateway/model_config.py (ModelConfig)
--   Verify        verify/base.py (Base), verify/ladder.py and the sampler of verify/expensive.py
--                 (Ladder), its judge (LlmJudge), verify/free.py (Free), verify/cheap.py (Cheap) and
--                 verify/result.py (Result)
--   Tools         tools/errors.py (Errors), tools/reversibility.py (Reversibility), tools/registry.py
--                 (Registry), tools/gateway.py (Gateway), tools/commit.py (Proposal, with propose and
--                 validate, and Commit), tools/schema.py (Schema, its checks in Schema/Checks); JSON
--                 values (Json) and what Python does with them (Value)
--   Cache         cache/exact.py: ExactCache, get and put as cache_get and cache_put
--   Prompt        prompt.py: assemble, ConversationHistory.append, prefix_chain
--   Memory        memory/lifecycle.py (Lifecycle), memory/store.py (Store), memory/retrieval.py
--                 (Retrieval), memory/gate.py and the measures of a cluster (Gate), FailureLog of
--                 memory/failures.py (Failures), its records in the file (Failures/Codec), load
--                 (Failures/Loading) and its clustering (Clusters), memory/replay.py (Replay),
--                 memory/hygiene.py (Hygiene), memory/critic.py (Critic), memory/loop.py (Learning),
--                 vectors.py (Vectors), and of memory/reflexion.py its stores (Recent), refresh and
--                 retrieve in the mode of rules (Reflexion) and, with memory/exemplars.py, in that of
--                 exemplars (Exemplars), learn (Reflexion/Learn) and make_replay
--                 (Reflexion/Counterfactual)
--   Routing       routing/policy.py (Policy), routing/threshold.py (Threshold), and routing/router.py:
--                 what the router works on (World), _call, _commit, _escalate, _finish_frontier and
--                 _surface (Escalation), the small model's path with _credit and _log_failure (Small), and
--                 route (Router). Quiet and the modules below Router hold proofs.
--   Tests         runs at concrete inputs
--
-- How they interact: Routing.Router asks Routing.Policy, looks into Cache, builds a prompt by Prompt, calls
-- the model clients, runs Verify.Ladder on the answer, commits a tool call by Tools.Commit, and reports
-- to the memory. The router's state is its cache; the clients, the verifiers, the tools and the memory act
-- on the rest of the world, of any type W, and may do anything to it. Memory.Learning runs beside it: it
-- takes the clusters of Memory.Clusters through the gate, the critic and the replay into Memory.Store,
-- from which Memory.Reflexion cuts what is served.
--
-- Exceptions are values (Prelude/Exec). A method that changes its object takes it and returns the new
-- one. Loops over lists are structural. The two attempts of route are written out; the attempts of a
-- commit count down from max_tool_retries. Only the validation of a value against a schema has a bound,
-- the depth of the schema, which is shown to suffice.
--
-- Parameters: floats, with no laws; json, the test of a float for zero, and the conversions of datetime
-- and numpy in the failure log's file; the SHA-256 digests; the clocks, the random numbers and uuid4, which
-- the world gives; the regular expressions of a schema and of the filter of rules; the operations on
-- vectors, which are total as an embedder gives vectors of one length; the schema check of a commit gate
-- and of the tool call verifier, which is Tools.Schema and may raise; the price table, the embedder, the
-- classifier and the retrieval, which the router is given; a policy's cost for each risk class, which a
-- cost map without one of them does not have. Letters and blanks are those of ASCII. That a rule store
-- reads back from its file what it wrote, and can write it, is taken for granted and not shown. The number
-- of a gate's retries is not negative.
--
-- Not modelled: of memory/reflexion.py the configuration from the environment,
-- status, and what learn does in the mode of exemplars; the classifier and the embedders, the validation of
-- pydantic, provider clients, the command line, the demos and the telemetry. They are input and output,
-- numerics, or further parts that the modelled ones call through an interface.
pub mod Prelude
pub mod Schemas
pub mod Gateway
pub mod Verify
pub mod Tools
pub mod Cache
pub mod Memory
pub mod Prompt
pub mod Routing
pub mod Tests
