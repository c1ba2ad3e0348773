-- ===== src/Lib.antt =====
-- CRAVE, a library for constrained random generation: expressions over random variables become named
-- constraints, a generator splits the constraints into independent partitions and gives each to a
-- solver, and distributions choose values by weight.
--
-- The parts and their files (paths from the repository's root):
-- - Ir: crave/src/crave/ir/Node.hpp, the expression tree. Each class of nodes is a constructor, or
--   the operator in one; the visitors below it walk this tree.
--   Ir/Support: crave/src/lib/GetSupportSetVisitor.cpp, the ids that an expression reads.
--   Ir/FixWidth: crave/src/lib/FixWidthVisitor.cpp, which extends operands to one width.
--   Ir/Complexity: crave/src/lib/ComplexityEstimationVisitor.cpp, which rates an expression.
--   Ir/Eval: crave/src/lib/EvalVisitor.cpp and crave/src/crave/utils/Evaluator.hpp, the value of an
--   expression under an assignment. `Eval/Value` has the 64-bit arithmetic, `Eval/Direct` the visitor
--   without its stack, `Eval/Meaning` a semantics that it implements, `Eval/Flags` where its answers
--   differ from that. `visitEqualOpr` reads ids through a cast of any node: the parameter `raw_id`.
--   Ir/Replace: crave/src/lib/ReplaceVisitor.cpp, the body of a `foreach` at one index.
--   `Replace/Subscript`
--   has what the operators make of subscripts, by the `int` of Prelude/Int; `Reference` the instance
--   without the visitor's state, `Follows`, `Access` and `Correct` that the visitor computes it,
--   `Sure` when its subscripts are defined.
--   Ir/Machine: the stack that these visitors share; a visit takes the stack to the stack after it,
--   or to the fault that stops it.
-- - Constraint: crave/src/crave/ir/UserConstraintType.hpp and UserVectorConstraint.hpp.
--   Constraint/Manager: crave/src/lib/ConstraintManager.cpp. The constraints live in a heap, since the
--   manager's map and list share them; `Manager/Laws` has the invariant and the two switches,
--   `Manager/Toggle` that they undo each other, `Manager/Make` the creation, which uses Ir/Support
--   and Ir/Complexity.
--   Constraint/Partition: crave/src/lib/ConstraintPartition.cpp.
--   Constraint/Partitioner: crave/src/lib/ConstraintPartitioner.cpp. `Partitioner/Rules` is the rule for
--   its loops, `Groups` says what a group is, `Correct` proves that the groups come out, and `State`
--   has the object that a generator resets, merges managers into and partitions.
--   Constraint/VectorId: `getVectorId` of crave/src/lib/UserVectorConstraint.cpp.
-- - Distribution: crave/src/crave/frontend/WeightedRange.hpp and Distribution.hpp.
-- - VectorGenerator: crave/src/lib/VectorGenerator.cpp, the constraints over vectors sorted by vector.
--   `VectorGenerator/Build` poses and solves them, over the interface `Vectors` of the program's
--   vectors;
--   `Ground` has the shape of the instances, `Posed` what is posed, `Solved` what a call answers.
-- - Frontend: crave/src/crave/ir/Context.hpp, the trees of the expressions that a program writes.
--   `Frontend/Signature` says what an id stands for, `Built` and `Typed` that the trees keep to it, as
--   Ir/Replace and VectorGenerator want it, `Literal` what the constants are, and
--   `Assign` crave/src/crave/frontend/AssignResultToRef.hpp, the value of a text of digits.
-- - Solver: crave/src/lib/metaSMTNodeVisitorImpl.hpp. `Solver` has the visitor that makes terms of
--   metaSMT, whose operations and documented behaviour are the records of `Solver/MetaSmt`;
--   `Solver/Problem` the calls that pose and solve a problem, `Translation` what is on the stack after
--   a visit, `Asserted` what an assertion ends in, `Softs` the choice of soft constraints, `Answer`
--   the loop that drops suggestions.
-- - Generator: crave/src/lib/Generator.cpp, over the interface `Engines` of its generators for variables
--   and vectors. `Generator/Container` has crave/src/lib/VariableSolver.cpp, `Generator/Cover` and
--   `Generator/CoverageGenerator` crave/src/lib/VariableCoverageSolver.cpp and
--   VariableCoverageGenerator.cpp, `Generator/Ready` when their calls return, `Generator/Hits` their
--   progress, `Generator/Analysis` and `Generator/Inactive` the analysis of
--   crave/src/lib/VariableDefaultSolver.cpp, `Generator/Default` and `Generator/Construct` its
--   solving and its
--   constructor, `Generator/Suggest` what a suggestion changes, `Generator/Picked` what it
--   answers, `Generator/Rebuild` what is solved after a change,
--   `Generator/Covered` the end of coverage. The program's memory, which references read and write,
--   is a parameter.
-- - RandObj: `rand_obj` of crave/src/lib/ConstrainedRandom.cpp. The objects are numbered as they
--   are made, and
--   parents and children are numbers. `RandObj/Request` has how far a request to rebuild goes,
--   `RandObj/Gather` what the generator of an object solves after it, `RandObj/Tree` the shape of
--   the tree.
-- - Object: crave/src/lib/experimental/Object.cpp, the names that a parent gives its children;
--   `Object/Names` has how far they tell the children apart. `std::to_string` is a parameter.
-- - RandomSeed: crave/src/lib/RandomSeedManager.cpp, with the generators of the standard library as
--   a parameter.
-- - Coverage: the transition bins of crave/src/crave/experimental/CoverageBins.hpp.
--   `Coverage/Steps` has the
--   step relation of a run, `Moves` the function that computes it, `Sample` the loops of a sample,
--   `Refinement` the theorem and its link to the evaluator of Ir/Eval, `Build` plain bins and the
--   functions that build the states.
-- - Prelude: numbers, lists, sets of ids, results and faults, shared by all. Tests: the theorems at
--   concrete inputs.
--
-- Faults are values: a thrown `std::runtime_error`, the `std::out_of_range` of a vector's `at`, an
-- `assert` that fails, and undefined behaviour.
-- An `assert` inside metaSMT, such as that on the widths of two operands, ends a call that poses an
-- expression with the fault `assertion`; where a theorem says that such a call returns or what a solver
-- answers, the interface `IsIncremental` takes a build with `NDEBUG`, which has no such `assert`s.
-- Numbers are natural numbers with the wrap-around of the code's width written out. The loops of the
-- partitioner run on fuel: the number of constraints left, plus one for the last sweep that changes
-- nothing; each round but the last takes a constraint away, and `none` never comes out. The loop of
-- a solver's `solve` has the number of suggestions and one: each round but the last drops one. The
-- calls up and down the tree of objects have as much as there are objects above, or in all.
--
-- C++ leaves the order of a constructor's arguments to the compiler: the context is a function of it.
--
-- Not modelled: metaSMT itself, a copy of another project; the threads that solve
-- partitions side by side, the C++ overloading of the frontend, coverage points and groups, the
-- rest of the experimental API, SystemC glue, settings, logging and output. The
-- random numbers of the standard library are the interfaces `Random` of Distribution, of which only
-- the range of a draw is assumed, and of Prelude/Random, with the range of a draw and that a shuffle
-- is a permutation.
pub mod Prelude
pub mod Ir
pub mod Constraint
pub mod Solver
pub mod VectorGenerator
pub mod Generator
pub mod Frontend
pub mod RandObj
pub mod Object
pub mod RandomSeed
pub mod Distribution
pub mod Coverage
pub mod Tests
