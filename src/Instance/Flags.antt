-- ===== src/Instance/Flags.antt =====
-- `enum iris_inst_sub_state` (iris_state.h): the flags BIT(0) to BIT(7) of `inst->sub_state`.
use nabu_iris.Common.{ℕ}

abbrev pub first_ipsc : ℕ
first_ipsc = 1

abbrev pub drc : ℕ
drc = 2

abbrev pub drc_last : ℕ
drc_last = 4

abbrev pub drain : ℕ
drain = 8

abbrev pub drain_last : ℕ
drain_last = 16

abbrev pub input_pause : ℕ
input_pause = 32

abbrev pub output_pause : ℕ
output_pause = 64

abbrev pub load_resources : ℕ
load_resources = 128

-- IRIS_INST_MAX_SUB_STATE_VALUE
abbrev pub max_sub_state_value : ℕ
max_sub_state_value = 255
