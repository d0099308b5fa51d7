-- ===== src/LexFile.antt =====
-- `struct LexFile` and the state of `struct Parser` in src/source.cpp. The name of the file, which is
-- the same in every `SourceLoc`, is left out of the locations.
pub mod Scan
pub mod Section1
pub mod RuleLine
pub mod Section2
pub mod Whole
pub mod Length
pub mod Progress
pub mod Total
use lex_cpp.Prelude.{
  ℕ, ◌+◌, ◌-◌, ◌%◌, ◌^◌, Bool, true, false, List, [], ◌∷◌, ◌++◌, length, ◌==◌, if◌then◌else◌,
}
use lex_cpp.Chars.{Text}
use lex_cpp.Options.{StartCond, Options, default_options, OptionMessage}
use lex_cpp.Pattern.{take_text}

-- `SourceLoc`; both are `uint32_t`.
pub record Loc : Type 0 where
  pub line : ℕ
  pub col : ℕ

pub record Rule : Type 0 where
  pub loc : Loc
  pub conds : List Text
  pub any_state : Bool
  pub pattern : Text
  pub action : Text
  pub eof : Bool

pub record LexFile : Type 0 where
  pub defs : List (Text × Text)
  pub conds : List StartCond
  pub rules : List Rule
  pub section_top : Text
  pub section_top_loc : Loc
  pub section1_verbatim : Text
  pub section1_loc : Loc
  pub section2_prologue : Text
  pub section2_loc : Loc
  pub section3 : Text
  pub section3_loc : Loc
  pub options : Options

pub record ScBlock : Type 0 where
  pub conds : List Text
  pub any_state : Bool

pub data FileMessage : Type 0 where
  unrecognised_line empty_pattern : Loc → FileMessage
  option_message : OptionMessage → FileMessage

-- `pos` is the text from it on; the top of `sc_blocks` is its head.
pub record Reader : Type 0 where
  pub rest : Text
  pub loc : Loc
  pub out : LexFile
  pub sc_blocks : List ScBlock
  pub messages : List FileMessage

abbrev pub no_loc : Loc
no_loc = record { line = 0; col = 0 }

abbrev pub no_file : LexFile
no_file = record {
  defs = [];
  conds = [];
  rules = [];
  section_top = [];
  section_top_loc = no_loc;
  section1_verbatim = [];
  section1_loc = no_loc;
  section2_prologue = [];
  section2_loc = no_loc;
  section3 = [];
  section3_loc = no_loc;
  options = default_options;
}

abbrev pub start_reader : Text → Reader
start_reader src = record {
  rest = src;
  loc = record { line = 1; col = 1 };
  out = no_file;
  sc_blocks = [];
  messages = [];
}

-- What `get` does to the line and the column.
unfoldable pub after_byte : ℕ → Loc → Loc
after_byte c l =
    if c == 10
    then record { line = (l.line + 1) % 2 ^ 32; col = 1 }
    else record l { col = (l.col + 1) % 2 ^ 32 }

unfoldable pub after_text : Text → Loc → Loc
after_text [] l = l
after_text (c ∷ s) l = after_text s (after_byte c l)

-- `get()` until `rest` is left.
unfoldable pub move_to : Text → Reader → Reader
move_to rest r = record r {
  rest = rest;
  loc = after_text (take_text (length r.rest - length rest) r.rest) r.loc;
}
