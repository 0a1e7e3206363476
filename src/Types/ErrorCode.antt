-- ===== src/Types/ErrorCode.antt =====
-- internal/types/error_code.go: the error codes and the actions, as their texts.
use formicary.Common.{String}

abbrev pub error_job_execute : String
error_job_execute = "ERR_JOB_EXECUTE"

abbrev pub error_quota_exceeded : String
error_quota_exceeded = "ERR_QUOTA_EXCEEDED"

abbrev error_job_schedule : String
error_job_schedule = "ERR_JOB_SCHEDULE"

abbrev pub error_job_cancelled : String
error_job_cancelled = "ERR_JOB_CANCELLED"

abbrev error_ants_unavailable : String
error_ants_unavailable = "ERR_ANTS_UNAVAILABLE"

abbrev pub error_task_execute : String
error_task_execute = "ERR_TASK_EXECUTE"

abbrev pub error_invalid_next_task : String
error_invalid_next_task = "ERR_INVALID_NEXT_TASK"

abbrev error_container_not_found : String
error_container_not_found = "ERR_CONTAINER_NOT_FOUND"

abbrev error_container_stopped_failed : String
error_container_stopped_failed = "ERR_CONTAINER_STOPPED_FAILED"

abbrev error_marshaling_failed : String
error_marshaling_failed = "ERR_MARSHALING_FAILED"

abbrev error_ant_execution_failed : String
error_ant_execution_failed = "ERR_ANT_EXECUTION_FAILED"

abbrev pub error_validation : String
error_validation = "ERR_VALIDATION"

abbrev pub error_filtered_job : String
error_filtered_job = "ERR_FILTERED_JOB"

abbrev pub error_ant_resources : String
error_ant_resources = "ERR_ANT_RESOURCES"

abbrev pub error_fatal : String
error_fatal = "ERR_FATAL"

abbrev pub error_restart_job : String
error_restart_job = "ERR_RESTART_JOB"

abbrev pub error_pause_job : String
error_pause_job = "ERR_PAUSE_JOB"

abbrev pub error_manual_approval_required : String
error_manual_approval_required = "ERR_MANUAL_APPROVAL_REQUIRED"

abbrev pub error_manual_rejection : String
error_manual_rejection = "ERR_MANUAL_REJECTION"

abbrev pub error_restart_task : String
error_restart_task = "ERR_RESTART_TASK"

abbrev pub error_task_timed_out : String
error_task_timed_out = "ERR_TASK_TIMED_OUT"
