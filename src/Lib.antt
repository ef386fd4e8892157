-- ===== src/Lib.antt =====
-- Verification of the decision-making core of ElectriPy AI (src/electripy): the parts that decide
-- whether a call may run, is retried, refused, approved or handed on, and that keep the state of a
-- live session, a cache or a trace. Paths below are from the repository's root.
--
-- The parts, and where they are modelled:
--
-- CircuitBreaker: src/electripy/concurrency/circuit_breaker.py. The record CircuitBreaker has the
-- fields of the class; `before_call`, `on_success`, `on_failure`, `reset` and `state` keep their
-- names. The lock makes each method atomic, so a run of several threads is a list of these steps.
--
-- HttpResilience: src/electripy/concurrency/http_resilience/. Breaker is its own, stricter breaker
-- (circuit_breaker.py), Retry the policy and the delays (domain.py, `_calculate_delay_s`), Client
-- the synchronous request loop (services.py). The loop runs in a world that supplies the clock,
-- the HTTP port and sleep; it recurses on the attempts that are left, which `max_attempts` bounds,
-- so it needs no fuel. The client calls the breaker before and after each send. Client/Async is the
-- asynchronous client: tasks that share a breaker and give way at each await, in the order of a schedule.
--
-- Realtime: src/electripy/ai/realtime/. Domain has the events and the table of allowed
-- transitions, Store the in-memory store and observer and the steps that the methods share,
-- Service every method that changes a session. A tool call is two operations, before and after
-- its await, so that any other call may come between them.
--
-- Policy: src/electripy/ai/policy/. Domain has the rules and decisions, Evaluator the
-- DefaultPolicyEvaluator, Store and Engine the PolicyEngine with the in-memory repository, approval
-- store and escalation handler. The engine calls the evaluator on the rules that its repository
-- lists, and grants tokens for stored requests.
--
-- Collaboration: src/electripy/ai/agent_collaboration/. The message loop of the runtime, over
-- agents that may keep state of their own, and a policy gateway. It recurses on the hops that are
-- left below `max_hops`, so it needs no fuel.
--
-- PolicyGateway: src/electripy/ai/policy_gateway/ (services.py, domain.py). The decision on the
-- findings of a detector, which is a port as the sanitizer is. Collaboration sees a gateway only
-- through the two decisions that its loop asks for.
--
-- TokenBudget: src/electripy/ai/token_budget/. The truncation of texts to a number of tokens. The
-- binary search runs on rounds, one more than the length of the text, which its interval never
-- outlasts; a tokenizer is a port.
--
-- ConversationMemory: src/electripy/ai/conversation_memory/. Windows of turns that are trimmed by number
-- or by tokens, with the texts and tokenizers of TokenBudget; the loops recurse on the list of turns.
--
-- ContextAssembly: src/electripy/ai/context_assembly/. The greedy packing of blocks by priority, with the
-- same texts and tokenizers.
--
-- LlmGateway: src/electripy/ai/llm_gateway/. Domain has the messages and requests, Validation the
-- prompts and checks of the structured mode (services.py), Client the synchronous client. It runs in
-- a world that supplies the clock, the port, sleep and the call hook; `json.loads` is a parameter.
-- Both its loops recurse on the attempts that are left.
--
-- LlmCache: src/electripy/ai/llm_cache/. Memory is the in-memory backend, an ordered dictionary listed from
-- its most recent entry; Port the port that wraps another one, of LlmGateway's requests and responses.
--
-- Mcp: src/electripy/ai/mcp/. Domain has the messages and what `to_dict` and `from_dict` make of
-- them, Server the tool server, Client the synchronous client over a transport that acts on a world.
-- The in-memory transport of adapters.py joins the two.
--
-- WorkloadRouter: src/electripy/ai/workload_router/. Domain has the profiles and policies, Scoring the
-- scores and their stable sort, Constraints the hard constraints, Service the routing. Floats are an
-- abstract type, a record of their operations a parameter.
--
-- Observe: src/electripy/observability/observe/. Domain and Metadata have the contexts, rules and attributes
-- (domain.py), Redaction the redactor, Tracer the in-memory spans and tracer (adapters.py), Service the
-- service and the span context manager (services.py), Service/Program programs of nested blocks, which
-- the decorators (decorators.py) are, and their meaning by lexical scopes. A span is named by its place
-- among those that the tracer made.
--
-- RateLimiter: src/electripy/concurrency/rate_limiter.py, the token bucket. The loop of an acquire recurses
-- on a number of rounds, two of which are enough.
--
-- ModelRouter: src/electripy/ai/model_router/, the choice of a model by rules and cost.
--
-- Prelude: what the parts share, of no code in particular; Prelude/Dict and Prelude/Names are Python's
-- dict with whole numbers and with texts as keys, Prelude/Json the values of the json package.
--
-- Conventions. A method maps a state to its result, or the exception that it raises, and the state
-- afterwards; a method that raises midway leaves what it has changed. What the clock reads is an
-- argument or comes from the world. Times, durations and counts are natural numbers: a time is a
-- number of units of one fixed length, in place of a float or a datetime, and a subtraction of times
-- is written as an addition on the other side. Whole numbers have no bound in Python, so there is no
-- overflow. An identifier that `uuid4` draws is the number of the draw, so that two draws differ.
-- A method reads or sets an object in place; the stored object is written back after each change.
--
-- Not modelled: log messages; the texts of exceptions, of which the data are kept; the asynchronous
-- clients of LLM and MCP; the cancellation of a task; the transports and provider
-- adapters; the text of a routing policy's summary; and the parts that mostly call other services or
-- shape texts (retrieval, evaluation, prompts, telemetry beyond spans, command line, playground).
pub mod Prelude
pub mod CircuitBreaker
pub mod HttpResilience
pub mod Realtime
pub mod Policy
pub mod Collaboration
pub mod PolicyGateway
pub mod TokenBudget
pub mod LlmGateway
pub mod Mcp
pub mod WorkloadRouter
pub mod ConversationMemory
pub mod ContextAssembly
pub mod LlmCache
pub mod Observe
pub mod RateLimiter
pub mod ModelRouter
