-- ===== src/Sqlite/Wasm.antt =====
-- The Wasm module as the classes see it: a sequence of calls, and what it answers to each.
use sqlite_wasm.Prelude.{ℕ, String, Bool, true, false, List, Bytes, ltb, leb}

-- A JavaScript number: a whole one by its sign and size, any other by its bits.
pub data Number : Type 0 where
  whole : Bool → ℕ → Number
  double : ℕ → Number

-- A text, as its UTF-16 code units
abbrev pub Text : Type 0
Text = List ℕ

-- The calls of the exports, with the arguments that are not fixed, and the writes to HEAPU8. The
-- names are the source's; a leading underscore, which marks an export without a wrapper, is left out,
-- and so is `encodeURIComponent` around a file's name.
pub data Call : Type 0 where
  malloc : ℕ → Call
  free_memory : ℕ → Call
  heap_set : Bytes → ℕ → Call
  sqlite3_bind_text : ℕ → ℕ → ℕ → ℕ → Call
  sqlite3_bind_blob : ℕ → ℕ → ℕ → ℕ → Call
  sqlite3_bind_int : ℕ → ℕ → Number → Call
  sqlite3_bind_double : ℕ → ℕ → Number → Call
  sqlite3_bind_parameter_index : ℕ → String → Call
  sqlite3_clear_bindings : ℕ → Call
  sqlite3_reset : ℕ → Call
  sqlite3_step : ℕ → Call
  sqlite3_finalize : ℕ → Call
  sqlite3_data_count : ℕ → Call
  sqlite3_column_name : ℕ → ℕ → Call
  sqlite3_column_type : ℕ → ℕ → Call
  sqlite3_column_double : ℕ → ℕ → Call
  sqlite3_column_text : ℕ → ℕ → Call
  sqlite3_column_blob : ℕ → ℕ → Call
  sqlite3_column_bytes : ℕ → ℕ → Call
  sqlite3_errmsg : ℕ → Call
  sqlite3_errstr : ℕ → Call
  sqlite3_prepare_v2 : ℕ → String → Call
  sqlite3_prepare_v2_sqlptr : ℕ → ℕ → Call
  sqlite3_exec : ℕ → String → Call
  sqlite3_close_v2 : ℕ → Call
  sqlite3_commit_hook : ℕ → ℕ → Call
  sqlite3_create_function_v2 : ℕ → String → ℕ → ℕ → Call
  sqlite3_get_autocommit : ℕ → Call
  sqlite3_free : ℕ → Call
  sqlite3_value_type : ℕ → Call
  sqlite3_value_double : ℕ → Call
  sqlite3_value_text : ℕ → Call
  sqlite3_value_bytes : ℕ → Call
  sqlite3_value_blob : ℕ → Call
  sqlite3_result_error : ℕ → String → Call
  sqlite3_result_int : ℕ → ℕ → Call
  sqlite3_result_double : ℕ → Number → Call
  sqlite3_result_text : ℕ → Text → Call
  sqlite3_result_blob : ℕ → ℕ → ℕ → Call
  sqlite3_result_null : ℕ → Call
  alinea_open_file : String → Call
  alinea_open_base : String → Call
  alinea_persist : ℕ → ℕ → Call
  sqlite3_changes : ℕ → Call
  alinea_persist_all : ℕ → Call
  alinea_attach_file : ℕ → String → Call
  alinea_detach_file : ℕ → Call
  alinea_flush : ℕ → Call
  alinea_rebase : ℕ → ℕ → String → Call
  alinea_serialize : ℕ → Call
  alinea_pages : ℕ → ℕ → ℕ → Call
  add_function : Call
  remove_function : ℕ → Call
  set_value : ℕ → ℕ → Call
  stack_save : Call
  stack_alloc : ℕ → Call
  string_to_utf8 : String → ℕ → Call
  stack_restore : ℕ → Call

-- What the module and the host answer to the newest of the calls so far, which come newest first: a
-- code or a pointer, a text, a number; and the heap after these calls. `double_at` is `getValue` with
-- 'double', for sizes.
pub record Engine : Type 0 where
  pub answer : List Call → ℕ
  pub text : List Call → String
  pub number : List Call → Number
  pub heap : List Call → Bytes
  pub encode : Text → Bytes
  pub decode : Bytes → Text
  pub temp_int32 : ℕ
  pub double_at : Bytes → ℕ → ℕ

-- `num === (num | 0)`
unfoldable pub is_int32 : Number → Bool
is_int32 (whole true size) = leb size 2147483648
is_int32 (whole false size) = ltb size 2147483648
is_int32 (double bits) = false
