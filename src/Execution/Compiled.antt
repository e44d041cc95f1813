-- ===== src/Execution/Compiled.antt =====
-- compiler.c, `CompileExpression`, where the blocks of the context have room.
use millie.Errors.{Errors}
use millie.Execution.Room.{Returns}
