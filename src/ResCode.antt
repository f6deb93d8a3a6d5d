-- ===== src/ResCode.antt =====
-- src/config.h: the enumeration RES_CODE that every operation returns.
use myjfm_spider.Prelude.{ℕ, Bool, true, false, ◌==◌}

-- Several names of the enumeration share one number; `value` gives it.
pub data ResCode : Type 0 where
  s_dummy s_ok s_fail : ResCode
  s_has_init s_out_range : ResCode
  s_exist s_not_exist : ResCode
  s_stream_not_exist s_no_input : ResCode
  s_no_ip s_bad_ip_type s_has_set : ResCode
  s_not_found s_already_exist s_unknown_protocol : ResCode
  s_has_started s_set_attr_failed s_thread_create_failed : ResCode
  s_not_running s_join_failed s_cancel_failed s_unkown_state : ResCode
  s_not_constructed s_bad_arg : ResCode
  s_invalid_log s_is_logging s_failed_to_log_on_disk : ResCode
  s_epoll_create_failed : ResCode
  s_should_close_connection : ResCode

unfoldable pub value : ResCode → ℕ
value s_dummy = 0
value s_ok = 1
value s_fail = 2
value s_has_init = 4
value s_out_range = 8
value s_exist = 4
value s_not_exist = 8
value s_stream_not_exist = 4
value s_no_input = 0x40000
value s_no_ip = 4
value s_bad_ip_type = 8
value s_has_set = 0x10
value s_not_found = 4
value s_already_exist = 0x40000
value s_unknown_protocol = 0x80000
value s_has_started = 4
value s_set_attr_failed = 8
value s_thread_create_failed = 0x40000
value s_not_running = 0x20
value s_join_failed = 0x40
value s_cancel_failed = 0x80
value s_unkown_state = 0x100
value s_not_constructed = 4
value s_bad_arg = 0x40000
value s_invalid_log = 4
value s_is_logging = 8
value s_failed_to_log_on_disk = 0x10
value s_epoll_create_failed = 4
value s_should_close_connection = 4

-- The test `res == S_OK`.
abbrev pub is_ok : ResCode → Bool
is_ok s_ok = true
is_ok _ = false

-- The tests `res == S_FAIL` and `res == S_SHOULD_CLOSE_CONNECTION`, on the numbers.
abbrev pub is_fail : ResCode → Bool
is_fail r = value r == 2

abbrev pub is_should_close : ResCode → Bool
is_should_close r = value r == 4
