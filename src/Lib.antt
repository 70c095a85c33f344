-- ===== src/Lib.antt =====
-- A model of sivra, a library that recovers and canonicalizes expressions of programs, and theorems
-- about it.
--
-- The program's parts. An operation catalogue (lib/ir/operation_catalogue.cpp) holds the operations that
-- expressions may use, each with a signature, an attribute schema and declared semantics. An expression
-- graph (lib/ir/expression_graph.cpp) is a list of nodes over one catalogue; the graph builder
-- (lib/ir/graph_builder.cpp) is the only code that adds nodes, and the validation
-- (lib/ir/validation.cpp) checks a whole graph. The canonicalizer (lib/canonicalizer) rebuilds a graph by
-- rules under budgets, evaluates operations on constants, and keeps a mapping from source nodes to the
-- nodes that took their place. The structural comparison (lib/ir/structural.cpp) orders and equates
-- nodes for its rules. The x86 front end (lib/x86) reads assembly text: tokens, and from them
-- instructions.
--
-- The files. Each names in its first line the source it models.
--   Core/Result        include/sivra/core/result.hpp and diagnostic.hpp: `Result` is `result_t`.
--   Core/Budget        lib/core/budget.cpp: `BudgetCounter`, `try_consume`.
--   Ir/ValueType, Ir/Constant, Ir/Ids, Ir/Attribute, Ir/Schema, Ir/Signature, Ir/Trait, Ir/Operation
--                      the data of lib/ir with its factories and validations, under the source's names;
--                      `value_type::scalar` is `scalar_type`, `constant_value::scalar` is `make_scalar`,
--                      and so on where a name would be taken twice.
--   Ir/Catalogue       lib/ir/operation_catalogue.cpp; Keys, Index, Lookup and RoundTrip hold its proofs.
--   Ir/Builtins        lib/ir/builtins/operations.cpp.
--   Ir/Graph, Ir/Builder, Ir/Validation
--                      graph, builder and validation. Every builder call takes the graph and returns the
--                      graph behind it with the new id; Builder/Calls makes the calls one type, and
--                      Builder/Extension and Builder/Values say what a larger graph still means.
--   Ir/Structural      lib/ir/structural.cpp: nodes as records of bytes and their comparison. Prefix and
--                      Encoding hold the proofs on the codes, Records and Readable those on records,
--                      Equality and Comparison those on the comparison; Meaning says what a value of a
--                      node is, for any meaning of the parts of a graph.
--   Canonicalizer/Evaluator
--                      lib/canonicalizer/evaluator_catalogue.cpp.
--   Canonicalizer/Termination, Canonicalizer/Mapping
--                      lib/canonicalizer/termination.cpp and result.cpp.
--   Canonicalizer/Rule, Canonicalizer/Scheduler, Canonicalizer/Trace
--                      rule_catalogue.cpp, scheduler.cpp and trace.cpp there; a rule keeps its id, name,
--                      phase, priority and function, and a phase may be a cast of any integer.
--   Canonicalizer/Configuration
--                      configuration.cpp and rule.cpp there.
--   Canonicalizer/Rewrite
--                      rewrite_context.cpp there, with the subjects and results of rules.
--   Canonicalizer/Rules
--                      rules/structural.cpp there is Rules/Structural, with its proofs in Deduplication,
--                      Ordering, Flattening and Returns; detail/match.cpp is Rules/Match and
--                      rules/algebraic.cpp is Rules/Algebraic, with theirs in Denotes, Constants,
--                      Annihilators and Identities.
--                      Rules/Meaning says what it is for a rule to keep the value of its subject.
--   Canonicalizer/Worklist
--                      worklist.cpp there: the state of a run and the lambdas are in the parent, its loops
--                      in Reach, Import, Attempt and Rounds, `run` in Run. A step takes the state and
--                      returns it with what the source does next. The proofs: Frame on what every step
--                      leaves alone; Copies and Imports on the import; Turns, Attempts and Subjects on
--                      the rules; Finals, Renewals and Processing on a round of the queue; Queues and Loop
--                      on the queue; Search on the search; Results, Endings and Soundness on whole runs;
--                      Readers on rules that only read.
--   Canonicalizer/Engine
--                      engine.cpp there: the state and what is done with a run; Canonicalize holds the loops
--                      and `canonicalize`. Steps, Endings and Checked hold
--                      its proofs.
--   X86/Tokenizer      lib/x86/tokenizer.cpp; Lexemes, Coverage and Spans hold its proofs.
--   X86/Parser         lib/x86/parser.cpp; Printing writes instructions as tokens, Progress and RoundTrip
--                      hold the proofs.
--   Prelude            numbers, lists, words, texts, maps and sorting that the parts share.
--   Tests              runs on concrete inputs.
--
-- Conventions. A text is a list of codes, an owner token a number, a map an association list, a failure a
-- value of `Result`. A `uint32_t` is a natural number with its wrap-around written out. Where the source
-- throws, the model returns `none`. A float is its bit pattern, and float arithmetic is the parameter
-- `FloatArithmetic`: nothing is assumed of it. Loops run over a list
-- or count down, or have fuel: the tokenizer the length of its text, since each round takes a character;
-- the parser one more than the number of its tokens, since each round takes a token; the comparison of
-- nodes one more than the size of the left graph, since operands are earlier nodes. In a run of the
-- worklist, the search has fuel for its roots and all operands, since a node's operands are pushed once;
-- the rules on one subject have one more than the rewrites left, since each restart takes one; the queue
-- has as much as the nodes of the source times one more than all rewrites and output nodes allowed, since
-- a node is queued again only behind a rewrite or a new node. The loops of the engine have one more than
-- the phase iterations left, since each round begins one. `Outcome` tells a loop without fuel from an
-- exception.
--
-- Not modelled: hashes and digests, messages of diagnostics, the rules that add
-- nodes and those of rules/bitwise.cpp, rules/constants.cpp and rules/numeric.cpp, the registers, forms and
-- semantics of the x86 front end, decoded programs, recovery, the JSON reader and the command line tool.
pub mod Prelude
pub mod Core
pub mod Ir
pub mod Canonicalizer
pub mod X86
pub mod Tests
