-- ===== src/Examples.antt =====
-- The theorems of the development at concrete inputs, and runs of the definitions.
mod Inputs
mod Para
mod Layouts
mod Rings
mod Networks
mod Regions
mod Processes
mod Turns
mod Commands
mod Boots
mod Threads
mod Window
mod Forces
mod Systems
