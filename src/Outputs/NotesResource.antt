-- ===== src/Outputs/NotesResource.antt =====
-- src/outputs/notes-resource.
pub mod ResourceQuery
pub mod NoteBuilder
pub mod Output
