-- ===== src/Store/LessonStatus.antt =====
-- Tests on `LessonStatusEnum` (app/core/enums.py), as the services write them.
use mathlib.Core.Bool.{Bool, true, false}
use guitar_online.Store.Enums.{LessonStatusEnum}

abbrev pub is_scheduled : LessonStatusEnum → Bool
is_scheduled LessonStatusEnum.scheduled = true
is_scheduled _ = false

abbrev pub is_completed : LessonStatusEnum → Bool
is_completed LessonStatusEnum.completed = true
is_completed _ = false

abbrev pub is_canceled : LessonStatusEnum → Bool
is_canceled LessonStatusEnum.canceled = true
is_canceled _ = false

abbrev pub is_no_show : LessonStatusEnum → Bool
is_no_show LessonStatusEnum.no_show = true
is_no_show _ = false
