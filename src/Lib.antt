-- ===== src/Lib.antt =====
-- lex.cpp, a lexer generator: the model of its core and the theorems about it.
--
-- A .l file is read (src/source.cpp), each pattern is parsed to a syntax tree (src/regex.cpp), each
-- tree is compiled to a fragment of one nondeterministic automaton (src/nfa.cpp), bytes that no edge
-- tells apart are merged into classes (src/eclass.cpp), the subset construction makes a deterministic
-- automaton (src/dfa.cpp), and its tables are written out, packed or not (src/dfa.cpp, src/tables.cpp,
-- src/codegen.cpp).
--
-- Prelude: Boolean tests, lists under native indices (Prelude/Lists), signed integers (Prelude/Int).
-- ByteSet: struct ByteSet of src/regex.hpp, four 64-bit words; its laws in ByteSet/Laws.
-- Regex: struct Node and fixed_length of src/regex.cpp. Regex/Language and Regex/Meaning are the
--   specification, the language that a tree denotes; Regex/Length is about fixed_length.
-- Nfa: the fragment compiler of src/nfa.cpp. Nfa/Graph has edges and runs, Nfa/Fragment what a
--   fragment promises, Nfa/Wrap, Nfa/Pieces, Nfa/Join and Nfa/Repeat that each building step keeps the
--   promise, Nfa/Correct the whole compiler, Nfa/Attributes the accepting rules.
-- Rules: init_nfa, add_rule_to_nfa, add_eof_rule and connect_to_conds of src/nfa.cpp; Rules/Connect the
--   edges from the start conditions, Rules/Runs and Rules/Accepts the rules that a condition accepts,
--   Rules/Anchors and Rules/Belongs the anchors and the conditions of a rule, Rules/Correct joins
--   them, Rules/Init is about the empty automaton.
-- Eclass: src/eclass.cpp; Eclass/Sides, Eclass/Plan and Eclass/Partition follow the loops of refine,
--   Eclass/Pigeonhole counts classes.
-- Dfa: eps_closure, step and accept_for of src/dfa.cpp; Dfa/Fuel, Dfa/Visit, Dfa/Sets and Dfa/Closure
--   follow the search and its result, Dfa/Order the order of a set, Dfa/Step the move by a byte,
--   Dfa/Accept the rule that is preferred. Sets of states and the maps of the source are lists.
-- Build: class_reps, compute_meta_classes and build_dfa of src/dfa.cpp. Build/Index is about the map
--   from sets to states, Build/Table the invariant of the loops, Build/Append and Build/Write what
--   keeps it; Build/Put, Build/Expand, Build/Loop and Build/Seed follow the loops from the inside
--   out, Build/Count counts the sets, Build/Reps and Build/Classes are about the classes of bytes,
--   Build/Bounds about the rows, Build/Starts about the starts of the conditions, Build/Walk and
--   Build/Verdict about a word that is read, Build/Correct about build_dfa.
-- Pack: compress_dfa of src/dfa.cpp, and the macro of src/codegen.cpp that reads its tables. Pack/Rows is
--   about what is collected and sorted, Pack/Place about the search for a base, Pack/Packed about the
--   pool, Pack/Correct about the macro, Pack/Walk about a word that is read by it.
-- Tables: serialise_tables of src/tables.cpp; Tables/RoundTrip reads the numbers back.
-- Chars, CharClass, Parser: the class Parser of src/regex.cpp, from the bytes and escapes to the whole
--   expression. Pattern: find_top_level_slash and parse_pattern; Pattern/Scan says where a
--   reader of a pattern stands, Pattern/Slash and Pattern/Trail are about trailing context.
-- Options, OptionNames: the %option, %s and %x lines of src/source.cpp; Options/Conds is about the latter.
-- RuleText: read_pattern and the start conditions before a pattern, of src/source.cpp; RuleText/Split
--   is about read_pattern.
-- LexFile: struct LexFile and the state of the reader of src/source.cpp; LexFile/Scan has its scanning
--   loops, LexFile/Section1, LexFile/Section2 and LexFile/RuleLine the lines of the two sections,
--   LexFile/Whole the file; LexFile/Length, LexFile/Progress and LexFile/Total show that it ends.
-- Driver: core_main of src/main.cpp up to the tables; Driver/CommandLine has parse_args. Driver/Selects
--   says which rule of a file a word selects, Driver/Names is about the names of conditions,
--   Driver/Marked about one rule that is added, Driver/Extended follows the loop over the rules, and Driver/Correct joins it with the tables;
--   Driver/Normal is about normalise_source.
-- Codegen: what src/codegen.cpp computes before it writes text, and its #line directives; Codegen/Labels
--   compares the numbers of the rules with those of the driver, Codegen/Line reads a file name back.
-- Examples and its children Reader, Table, Label, Packed and Whole: the theorems at concrete inputs.
--
-- Texts are lists of bytes, messages are values without their place in the file, and the macro table is
-- a function that the parser takes. Four functions run on fuel and return none without it:
-- eps_closure, which needs a turn for each state of the given set and one for each state that it
-- finds; build_dfa, which makes at most one state for each set of states; the loops over the lines of
-- a section, whose fuel is the length of the text, since each turn takes a byte; and parse_alt, where
-- fuel bounds the depth of groups and macros. Loops that take a byte each turn run for the length of
-- their text.
--
-- A length of src/regex.cpp is a 32-bit int whose sums and products wrap around, which C++ leaves
-- undefined; an unsigned count wraps around as C++ has it.
--
-- Not modelled: the text of the generated C program, which is output; opening, reading and writing files
-- in the driver; the platform layer, which calls the operating system; the layout of messages; the
-- runtime template and libl, which are C.
pub mod Prelude
pub mod ByteSet
pub mod Regex
pub mod Nfa
pub mod Rules
pub mod Eclass
pub mod Dfa
pub mod Build
pub mod Pack
pub mod Tables
pub mod Chars
pub mod CharClass
pub mod Parser
pub mod Pattern
pub mod OptionNames
pub mod Options
pub mod RuleText
pub mod LexFile
pub mod Driver
pub mod Codegen
mod Examples
