-- ===== src/Tasks.antt =====
-- src/osc-ui-task.{h,cpp}, and what reaches the UI thread through it: the commands that datagrams post
-- and the documents that connection threads ask for.
pub mod Queue
pub mod Schedule
